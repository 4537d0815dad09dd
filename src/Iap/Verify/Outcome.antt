-- ===== src/Iap/Verify/Outcome.antt =====
-- The outcomes of `verify_receipt` (apps/iap/services.py).
use backend_live_canvas.Prelude.{
  ℕ, String, ◌≡◌, ◌≢◌, refl, sym, ◌∙◌, subst, subst₂, inl, inr, true, false, Option, none, some,
  truthy, ap, str_eq, str_eq_iff, and_true, first_sound, str_eq_of_ne, Bool-cases,
}
use backend_live_canvas.Core.Errors.{AppErrorClass, Exc, raised}
use backend_live_canvas.Core.Exec.{Result, ok, err, pure, ◌>>◌, Result-cases}
use backend_live_canvas.Audit.{end}
use backend_live_canvas.Iap.Models.{
  IapPlatform, platform_eq, SubscriptionEntitlement, StoreSubscription, IapDb,
}
use backend_live_canvas.Iap.Tables.{is_subscription, find_ref, audit}
use backend_live_canvas.Iap.Verify.{conflicts, guard_conflict, write_entitlement, verify_receipt}
use backend_live_canvas.Iap.Verify.Receipt.{
  BoundTo, write-BoundTo, audit-IsWellFormed, audit-BoundTo,
}
use backend_live_canvas.Iap.Verify.Written.{IsWellFormed, write-IsWellFormed}

-- The entitlement carries the state that the store reported.
pub record HasStoreState (sub : StoreSubscription) (e : SubscriptionEntitlement) : Type 0 where
  pub status : e.status ≡ sub.status
  pub expires_at : e.expires_at ≡ sub.expires_at
  pub auto_renew : e.auto_renew ≡ sub.auto_renew
  pub product_id : e.product_id ≡ sub.product_id

write-HasStoreState :
    (now : ℕ) (sub : StoreSubscription) (device txn : String) (event_at : Option ℕ) (db : IapDb)
    → HasStoreState sub (write_entitlement now sub device txn event_at db).0
unfolding write_entitlement
write-HasStoreState now sub device txn event_at db = record {
  status = refl;
  expires_at = refl;
  auto_renew = refl;
  product_id = refl;
}

-- The end of the call: the entitlement, unless its audit raised.
abbrev pub sealed :
    SubscriptionEntitlement → Result (Unit {0}) → IapDb → Result SubscriptionEntitlement × IapDb
sealed e (ok _) db = (ok e, db)
sealed e (err x) db = (err x, db)

sealed-IsWellFormed :
    (e : SubscriptionEntitlement) (r : Result (Unit {0})) (db : IapDb)
    → IsWellFormed db
    → IsWellFormed (sealed e r db).1
sealed-IsWellFormed e (ok _) db w = w
sealed-IsWellFormed e (err x) db w = w

bind-sealed :
    (e : SubscriptionEntitlement) (m : Result (Unit {0}) × IapDb)
    → ((λ (_ : IapDb). m) >> pure e) m.1 ≡ sealed e m.0 m.1
bind-sealed e (ok _, db) = refl
bind-sealed e (err x, db) = refl

sealed_ok :
    (e : SubscriptionEntitlement) (r : Result (Unit {0})) (db : IapDb)
    {e' : SubscriptionEntitlement} {db' : IapDb}
    → sealed e r db ≡ (ok e', db')
    → (e ≡ e') × (db ≡ db')
sealed_ok e (ok _) db h = (cc, cc)
sealed_ok e (err x) db h = absurd (cc)

module _ (adapter : IapPlatform → String → String → String → Result StoreSubscription) (now : ℕ)
    (p : IapPlatform) (receipt txn product device : String) (db : IapDb) where
  abbrev pub answer : Result SubscriptionEntitlement × IapDb
  answer = verify_receipt adapter now p receipt txn product device db

  abbrev pub written : StoreSubscription → SubscriptionEntitlement × IapDb
  written sub = write_entitlement now sub device txn none db

  abbrev pub audited : StoreSubscription → Result (Unit {0}) × IapDb
  audited sub = audit now (written sub).0 "iap.verify" "app" end (written sub).1

  pub refused_by_store : (x : Exc) → adapter p receipt txn product ≡ err x → answer ≡ (err x, db)
  unfolding verify_receipt
  refused_by_store x h = rw h

  pub refused_by_guard :
      (sub : StoreSubscription)
      → adapter p receipt txn product ≡ ok sub
      → conflicts sub txn db ≡ true
      → answer ≡ (err (raised AppErrorClass.receipt_conflict), db)
  unfolding verify_receipt guard_conflict
  refused_by_guard sub h c = rw h (rw c)

  pub accepted :
      (sub : StoreSubscription)
      → adapter p receipt txn product ≡ ok sub
      → conflicts sub txn db ≡ false
      → answer ≡ sealed (written sub).0 (audited sub).0 (audited sub).1
  unfolding verify_receipt guard_conflict
  accepted sub h c = rw (h, c) (bind-sealed (written sub).0 (audited sub))

  -- A success binds the transaction to the one entitlement of the subscription that the store
  -- reported, and that entitlement carries the state that the store reported.
  pub verify_receipt-BoundTo :
      {e : SubscriptionEntitlement} {db' : IapDb}
      → IsWellFormed db
      → truthy txn ≡ true
      → answer ≡ (ok e, db')
      → (sub : StoreSubscription) × (adapter p receipt txn product ≡ ok sub)
        × HasStoreState sub e
        × BoundTo sub txn e db'
  verify_receipt-BoundTo {e} {db'} w given a = elim (Result-cases (adapter p receipt txn product)) [
    | inr (x, h) ↦ absurd (cc (refused_by_store x h, a))
    | inl (sub, h) ↦ elim (Bool-cases (conflicts sub txn db)) [
      | inl c ↦ absurd (cc (refused_by_guard sub h c, a))
      | inr c ↦
          let (row, tables) =
            sealed_ok (written sub).0 (audited sub).0 (audited sub).1
              (sym (accepted sub h c) ∙ a) in
          let b = write-BoundTo now sub device txn none db w given c in
          (
            sub,
            h,
            subst (HasStoreState sub) row (write-HasStoreState now sub device txn none db),
            subst₂ (λ f d. BoundTo sub txn f d) row tables
                (audit-BoundTo now sub txn (written sub).0 "iap.verify" "app" end (written sub).1
                  b),
          )
    ]
  ]

  -- The tables stay well-formed whatever the outcome, an exception of the audit included.
  pub verify_receipt-IsWellFormed : IsWellFormed db → IsWellFormed answer.1
  verify_receipt-IsWellFormed w = elim (Result-cases (adapter p receipt txn product)) [
    | inr (x, h) ↦ rw (refused_by_store x h) w
    | inl (sub, h) ↦ elim (Bool-cases (conflicts sub txn db)) [
      | inl c ↦ rw (refused_by_guard sub h c) w
      | inr c ↦ rw (accepted sub h c) (
          sealed-IsWellFormed (written sub).0 (audited sub).0 (audited sub).1 (
            audit-IsWellFormed now (written sub).0 "iap.verify" "app" end (written sub).1
              (write-IsWellFormed now sub device txn none db w)))
    ]
  ]

  -- A transaction that stays bound: once it was verified for a subscription, a verification of the
  -- same transaction, by whatever receipt and device and at any time, for which the store reports
  -- another subscription of the same platform is refused with RECEIPT_CONFLICT, and writes nothing.
  -- The tables were well-formed and the transaction id is not empty.
  pub verify_receipt_rebound :
      {e : SubscriptionEntitlement} {db' : IapDb} (sub : StoreSubscription)
      → IsWellFormed db
      → truthy txn ≡ true
      → adapter p receipt txn product ≡ ok sub
      → answer ≡ (ok e, db')
      → (adapter2 : IapPlatform → String → String → String → Result StoreSubscription) (later : ℕ)
        (p2 : IapPlatform) (receipt2 product2 device2 : String) (sub2 : StoreSubscription)
      → adapter2 p2 receipt2 txn product2 ≡ ok sub2
      → sub2.platform ≡ sub.platform
      → sub2.original_transaction_id ≢ sub.original_transaction_id
      → verify_receipt adapter2 later p2 receipt2 txn product2 device2 db'
        ≡ (err (raised AppErrorClass.receipt_conflict), db')
  unfolding verify_receipt guard_conflict
  verify_receipt_rebound {e} {db'} sub w given h a adapter2 later p2 receipt2 product2 device2 sub2
        h2 plat other =
      let (sub1, h1, _, b) = verify_receipt-BoundTo w given a in
      let same : sub1 ≡ sub = ok_eq sub1 sub (sym h1 ∙ h) in
      let ref : find_ref sub2.platform txn db'.transactions ≡ some b.ref =
        ap (λ (q : IapPlatform). find_ref q txn db'.transactions)
          (plat ∙ ap (λ (x : StoreSubscription). x.platform) (sym same))
        ∙ b.ref_found in
      let original : e.original_transaction_id ≡ sub.original_transaction_id =
        (str_eq_iff e.original_transaction_id sub1.original_transaction_id).0
          (and_true (platform_eq e.platform sub1.platform)
            (str_eq e.original_transaction_id sub1.original_transaction_id)
            (first_sound (is_subscription sub1.platform sub1.original_transaction_id)
              db'.entitlements b.found)).1
        ∙ ap (λ (x : StoreSubscription). x.original_transaction_id) same in
      let clash : conflicts sub2 txn db' ≡ true =
        unfold conflicts in
        rw (ref, conflicts)
          (rw b.ref_entitlement (
            rw (
              str_eq_of_ne e.original_transaction_id sub2.original_transaction_id
                (λ q. other (sym q ∙ original))))) in
      rw h2 (rw clash)
    where
      ok_eq : (x y : StoreSubscription) → ok x ≡ ok y → x ≡ y
      ok_eq x y q = cc

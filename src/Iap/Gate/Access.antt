-- ===== src/Iap/Gate/Access.antt =====
-- The download gate (apps/iap/services.py, `is_entitled`) against what the stores reported.
use backend_live_canvas.Prelude.{
  ℕ, String, ◌≡◌, refl, sym, ◌∙◌, ap, ap₂, inl, inr, Bool, true, false, ◌&&◌, Option, some, List,
  [], ◌∷◌, All, first, first_sound, first-All, and_true, str_eq, truthy, Bool-cases, Option-cases,
  arith,
}
use backend_live_canvas.Core.Exec.{Result, ok}
use backend_live_canvas.Iap.Models.{
  IapPlatform, EntitlementStatus, not_past, SubscriptionEntitlement, EntitlementTransaction,
  StoreSubscription, IapDb, is_entitled_status, grants_access, platform_eq, platform_eq_iff,
}
use backend_live_canvas.Iap.Tables.{is_ref, find_entitlement, find_ref}
use backend_live_canvas.Iap.Verify.{verify_receipt}
use backend_live_canvas.Iap.Verify.Invariant.{IsFound, IsFound-of_by_id}
use backend_live_canvas.Iap.Verify.Outcome.{verify_receipt-BoundTo}
use backend_live_canvas.Iap.Verify.Written.{IsWellFormed}
use backend_live_canvas.Iap.Gate.{resolve, is_entitled}

-- The row that an id resolves to stands in the table.
resolve-IsFound :
    (t : String) (db : IapDb) {x : SubscriptionEntitlement}
    → IsWellFormed db
    → resolve t db ≡ some x
    → IsFound db.entitlements db.next_id x
unfolding resolve
resolve-IsFound t db w h = elim (Bool-cases (truthy t)) [
  | inr e ↦ absurd (cc (rw e at h))
  | inl e ↦ elim (Option-cases (first (λ r. str_eq r.transaction_id t) db.transactions)) [
    | inl f ↦ absurd (cc (rw (e, f) at h))
    | inr (r, f) ↦
        (IsFound-of_by_id db.entitlements db.next_id r.entitlement w.keyed (rw (e, f) at h)).0
  ]
]

denied :
    (e : SubscriptionEntitlement) (now : ℕ)
    → is_entitled_status e.status ≡ false
    → grants_access e now ≡ false
unfolding grants_access
denied e now h = rw h

-- Once the entitlement of a subscription has a status that grants no access, as after a refund or
-- an expiry, the gate refuses every id of the subscription's chain, at any time.
pub is_entitled_revoked :
    (db : IapDb) (p : IapPlatform) (o : String) (e x : SubscriptionEntitlement) (t : String)
    (now : ℕ)
    → IsWellFormed db
    → find_entitlement p o db.entitlements ≡ some e
    → is_entitled_status e.status ≡ false
    → resolve t db ≡ some x
    → x.platform ≡ p
    → x.original_transaction_id ≡ o
    → is_entitled now (some t) db ≡ false
unfolding is_entitled
is_entitled_revoked db p o e x t now w f s r xp xo =
    let there = resolve-IsFound t db w r in
    let found : some x ≡ some e =
      sym there.by_key
      ∙ ap₂ (λ (q : IapPlatform) (u : String). find_entitlement q u db.entitlements) xp xo
      ∙ f in
    let same : x ≡ e = cc in
    rw (r, is_entitled) (denied x now (ap (λ y. is_entitled_status y.status) same ∙ s))

-- No index row of the id stands on another platform.
abbrev pub IsOfPlatform : IapPlatform → String → List EntitlementTransaction → Type 0
IsOfPlatform p t rs = All (λ r. str_eq r.transaction_id t ≡ true → r.platform ≡ p) rs

first-find_ref :
    (p : IapPlatform) (t : String) (rs : List EntitlementTransaction)
    → IsOfPlatform p t rs
    → first (λ r. str_eq r.transaction_id t) rs ≡ find_ref p t rs
unfolding first
first-find_ref p t [] h = refl
first-find_ref p t (r ∷ rs) h = elim (Bool-cases (str_eq r.transaction_id t)) [
  | inl e ↦ rw (e, (platform_eq_iff r.platform p).1 (h.0 e))
  | inr e ↦ ground (arith, first-find_ref p t rs h.1)
]

module _ (adapter : IapPlatform → String → String → String → Result StoreSubscription) (now : ℕ)
    (p : IapPlatform) (receipt txn product device : String) (db : IapDb)
    {e : SubscriptionEntitlement} {db' : IapDb} (w : IsWellFormed db) (given : truthy txn ≡ true)
    (a : verify_receipt adapter now p receipt txn product device db ≡ (ok e, db')) (q : IapPlatform)
    (only : IsOfPlatform q txn db'.transactions) where
  -- The transaction resolves to the entitlement that the verification returned.
  pub verify_receipt-resolve : resolve txn db' ≡ some e
  unfolding resolve
  verify_receipt-resolve =
      let (sub, called, state, b) =
        verify_receipt-BoundTo adapter now p receipt txn product device db w given a in
      let (ref_platform, ref_id) =
        and_true (platform_eq b.ref.platform sub.platform) (str_eq b.ref.transaction_id txn)
          (first_sound (is_ref sub.platform txn) db'.transactions b.ref_found) in
      let plat : q ≡ sub.platform =
        sym (
          first-All (λ r. str_eq r.transaction_id txn ≡ true → r.platform ≡ q) _ db'.transactions
            only b.ref_found ref_id)
        ∙ (platform_eq_iff b.ref.platform sub.platform).0 ref_platform in
      let ref : first (λ r. str_eq r.transaction_id txn) db'.transactions ≡ some b.ref =
        first-find_ref q txn db'.transactions only
        ∙ ap (λ (x : IapPlatform). find_ref x txn db'.transactions) plat
        ∙ b.ref_found in
      rw (given, resolve) (rw (ref, resolve) (rw b.ref_entitlement))

-- Whether the state that a store reports grants access at a time.
abbrev pub reports_access : StoreSubscription → ℕ → Bool
reports_access sub later = is_entitled_status sub.status && not_past sub.expires_at later

grants_access-reported :
    (sub : StoreSubscription) (e : SubscriptionEntitlement) (later : ℕ)
    → e.status ≡ sub.status
    → e.expires_at ≡ sub.expires_at
    → grants_access e later ≡ reports_access sub later
unfolding grants_access
grants_access-reported sub e later s x =
    ap₂ (λ (a : EntitlementStatus) (b : Option ℕ). is_entitled_status a && not_past b later) s x

-- After a verification that succeeded, the gate lets the transaction through exactly when the
-- status that the store reported is one that grants access and the expiry that it reported is not
-- past, provided that the id is not empty, that no index row of it stands on the other platform, and
-- that the tables were well-formed.
pub verify_receipt-is_entitled :
    (adapter : IapPlatform → String → String → String → Result StoreSubscription) (now : ℕ)
    (p : IapPlatform) (receipt txn product device : String) (db : IapDb)
    {e : SubscriptionEntitlement} {db' : IapDb}
    → IsWellFormed db
    → truthy txn ≡ true
    → verify_receipt adapter now p receipt txn product device db ≡ (ok e, db')
    → IsOfPlatform e.platform txn db'.transactions
    → (sub : StoreSubscription) × (adapter p receipt txn product ≡ ok sub)
      × ((later : ℕ) → is_entitled later (some txn) db' ≡ reports_access sub later)
unfolding is_entitled
verify_receipt-is_entitled adapter now p receipt txn product device db {e} w given a only =
    let (sub, called, state, b) =
      verify_receipt-BoundTo adapter now p receipt txn product device db w given a in
    (
      sub,
      called,
      λ later.
          rw
            (
              verify_receipt-resolve adapter now p receipt txn product device db w given a
                  e.platform only,
              is_entitled,
            )
            (grants_access-reported sub e later state.status state.expires_at),
    )

-- ===== src/Iap/Verify/Receipt.antt =====
-- `verify_receipt` (apps/iap/services.py): what a success means, when it refuses, and the tables
-- that any outcome leaves.
use backend_live_canvas.Prelude.{
  ℕ, String, ◌≡◌, refl, sym, ◌∙◌, ap, inl, inr, Bool, true, false, ◌||◌, not, Option, some, List,
  [], ◌∷◌, ◌++◌, first-All, first_sound, exists, or_first, str_eq, str_eq_refl, str_eq_iff, truthy,
  and_true, Option-cases, arith,
}
use backend_live_canvas.Audit.{Members}
use backend_live_canvas.Iap.Models.{
  SubscriptionEntitlement, EntitlementTransaction, StoreSubscription, IapDb, platform_eq,
  platform_eq_iff,
}
use backend_live_canvas.Iap.Tables.{find_entitlement, entitlement_by_id, find_ref, is_ref, audit}
use backend_live_canvas.Iap.Verify.{conflicts, write_entitlement, chain_ids}
use backend_live_canvas.Iap.Verify.Index.{ref_row, is_walked, find_ref-index_ids}
use backend_live_canvas.Iap.Verify.Invariant.{IsFound, IsFound-of_by_id}
use backend_live_canvas.Iap.Verify.Refs.{HasEntitlement}
use backend_live_canvas.Iap.Verify.Written.{
  IsWellFormed, new_row-IsFound, new_row-platform, new_row-original, find_entitlement-write,
  transactions-write, write-IsKeyed, write-Keeps,
}

-- Auditing touches the audit trail alone.
pub audit-IsWellFormed :
    (now : ℕ) (e : SubscriptionEntitlement) (action label : String) (extra : Members) (db : IapDb)
    → IsWellFormed db
    → IsWellFormed (audit now e action label extra db).1
unfolding audit
audit-IsWellFormed now e action label extra db w = record {
  keyed = w.keyed;
  refs = w.refs;
  only = w.only;
}

exists-append :
    {A : Type 0} (k : A → Bool) (xs ys : List A)
    → exists k (xs ++ ys) ≡ (exists k xs || exists k ys)
unfolding exists
exists-append k [] ys = refl
exists-append k (x ∷ xs) ys = ground (arith, exists-append k xs ys)

incoming_walked :
    (sub : StoreSubscription) (txn : String) → is_walked txn (chain_ids sub txn) ≡ true
incoming_walked sub txn =
    exists-append (λ s. str_eq s txn) sub.transaction_ids (txn ∷ sub.latest_transaction_id ∷ [])
    ∙ (unfold exists in rw (str_eq_refl txn) (ground arith))

-- Two rows of one subscription in a keyed table are one row.
one_row :
    (es : List SubscriptionEntitlement) (next : ℕ) (a b : SubscriptionEntitlement)
    → IsFound es next a
    → IsFound es next b
    → a.platform ≡ b.platform
    → a.original_transaction_id ≡ b.original_transaction_id
    → a ≡ b
one_row es next a b fa fb p o = cc (fa.by_key, fb.by_key, p, o)

-- The transaction `txn` is bound to the entitlement `e` of the subscription `sub`.
pub record BoundTo (sub : StoreSubscription) (txn : String) (e : SubscriptionEntitlement)
    (db : IapDb) : Type 0 where
  pub found : find_entitlement sub.platform sub.original_transaction_id db.entitlements ≡ some e
  pub ref : EntitlementTransaction
  pub ref_found : find_ref sub.platform txn db.transactions ≡ some ref
  pub ref_entitlement : entitlement_by_id ref.entitlement db.entitlements ≡ some e

pub audit-BoundTo :
    (now : ℕ) (sub : StoreSubscription) (txn : String) (e : SubscriptionEntitlement)
    (action label : String) (extra : Members) (db : IapDb)
    → BoundTo sub txn e db
    → BoundTo sub txn e (audit now e action label extra db).1
unfolding audit
audit-BoundTo now sub txn e action label extra db b = record {
  found = b.found;
  ref = b.ref;
  ref_found = b.ref_found;
  ref_entitlement = b.ref_entitlement;
}

module _ (now : ℕ) (sub : StoreSubscription) (device txn : String) (event_at : Option ℕ)
    (db : IapDb) (wf : IsWellFormed db) (given : truthy txn ≡ true)
    (clear : conflicts sub txn db ≡ false) where
  abbrev row : SubscriptionEntitlement
  row = (write_entitlement now sub device txn event_at db).0

  abbrev tables : IapDb
  tables = (write_entitlement now sub device txn event_at db).1

  row_there : IsFound tables.entitlements tables.next_id row
  row_there = new_row-IsFound now sub device txn event_at db wf

  -- The guard let an old index row pass only if it is of this subscription.
  old_ref_original :
      (r : EntitlementTransaction) (x : SubscriptionEntitlement)
      → find_ref sub.platform txn db.transactions ≡ some r
      → entitlement_by_id r.entitlement db.entitlements ≡ some x
      → x.original_transaction_id ≡ sub.original_transaction_id
  unfolding conflicts
  old_ref_original r x f g =
      let c : conflicts sub txn db
          ≡ not (str_eq x.original_transaction_id sub.original_transaction_id) =
        rw (f, conflicts) (rw g refl) in
      (str_eq_iff x.original_transaction_id sub.original_transaction_id).0 (ground (arith, clear))

  old_ref_row :
      (r : EntitlementTransaction)
      → find_ref sub.platform txn db.transactions ≡ some r
      → entitlement_by_id r.entitlement tables.entitlements ≡ some row
  old_ref_row r f =
      let (x, g, p) = first-All (HasEntitlement db.entitlements) _ db.transactions wf.refs f in
      let (y, there, s) = write-Keeps now sub device txn event_at db wf r.entitlement x g in
      let (yf, _) =
        IsFound-of_by_id tables.entitlements tables.next_id r.entitlement
          (write-IsKeyed now sub device txn event_at db wf) there in
      let rp : r.platform ≡ sub.platform =
        (platform_eq_iff r.platform sub.platform).0
          (and_true (platform_eq r.platform sub.platform) (str_eq r.transaction_id txn)
            (first_sound (is_ref sub.platform txn) db.transactions f)).0 in
      let yp : y.platform ≡ row.platform =
        s.platform ∙ p ∙ rp ∙ sym (new_row-platform now sub device txn event_at db wf) in
      let yo : y.original_transaction_id ≡ row.original_transaction_id =
        s.original
        ∙ old_ref_original r x f g
        ∙ sym (new_row-original now sub device txn event_at db wf) in
      there ∙ ap some (one_row tables.entitlements tables.next_id y row yf row_there yp yo)

  found_row :
      find_entitlement sub.platform sub.original_transaction_id tables.entitlements ≡ some row
  found_row = find_entitlement-write now sub device txn event_at db wf

  ref_after :
      find_ref sub.platform txn tables.transactions
      ≡ or_first
          (find_ref sub.platform txn db.transactions)
          (some (ref_row sub.platform row.id txn))
  ref_after =
      ap (λ (ts : List EntitlementTransaction). find_ref sub.platform txn ts)
        (transactions-write now sub device txn event_at db wf)
      ∙ find_ref-index_ids sub.platform sub.platform row.id (chain_ids sub txn) txn db.transactions
      ∙ (rw (incoming_walked sub txn, given, (platform_eq_iff sub.platform sub.platform).1 refl))

  -- After the write the incoming transaction is bound to the written entitlement.
  pub write-BoundTo : BoundTo sub txn row tables
  write-BoundTo = elim (Option-cases (find_ref sub.platform txn db.transactions)) [
    | inr (r, f) ↦ record {
      found = found_row;
      ref = r;
      ref_found = ref_after ∙ (rw f);
      ref_entitlement = old_ref_row r f;
    }
    | inl f ↦ record {
      found = found_row;
      ref = ref_row sub.platform row.id txn;
      ref_found = ref_after ∙ (rw f);
      ref_entitlement = row_there.by_id;
    }
  ]

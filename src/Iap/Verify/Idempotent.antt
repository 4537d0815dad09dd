-- ===== src/Iap/Verify/Idempotent.antt =====
-- Writing the same store state twice (apps/iap/services.py, `_write_entitlement`).
use backend_live_canvas.Prelude.{
  ℕ, String, ◌≡◌, refl, sym, ◌∙◌, ap, subst, inl, inr, true, Option, some, List, [], ◌∷◌, ◌==◌,
  ==_iff, All, All-map, update, exists, str_eq_refl, truthy, Bool-cases, Option-cases, arith,
}
use backend_live_canvas.Iap.Models.{
  IapPlatform, SubscriptionEntitlement, EntitlementTransaction, StoreSubscription, IapDb,
  platform_eq_iff,
}
use backend_live_canvas.Iap.Tables.{find_ref}
use backend_live_canvas.Iap.Verify.{
  refreshed, get_or_create, index_ids, chain_ids, write_entitlement,
}
use backend_live_canvas.Iap.Verify.Index.{ref_row, is_walked, find_ref-index_ids}
use backend_live_canvas.Iap.Verify.Invariant.{IsFound}
use backend_live_canvas.Iap.Verify.Written.{
  IsWellFormed, new_row-IsFound, find_entitlement-write, transactions-write, write-IsKeyed,
}

-- ---------------------------------------------------------------- the index

-- The id has a row, or is empty and never gets one.
abbrev IsKnown : IapPlatform → List EntitlementTransaction → String → Type 0
IsKnown p refs t = truthy t ≡ true → (r : EntitlementTransaction) × (find_ref p t refs ≡ some r)

index_ids_known :
    (p : IapPlatform) (i : ℕ) (txns : List String) (refs : List EntitlementTransaction)
    → All (IsKnown p refs) txns
    → index_ids p i txns refs ≡ refs
unfolding index_ids
index_ids_known p i [] refs h = refl
index_ids_known p i (t ∷ txns) refs h = elim (Bool-cases (truthy t)) [
  | inr e ↦ rw e (index_ids_known p i txns refs h.1)
  | inl e ↦ let (r, f) = h.0 e in rw (e, f) (index_ids_known p i txns refs h.1)
]

-- Every element of a list is among those that are walked.
All-walked : (txns : List String) → All (λ t. is_walked t txns ≡ true) txns
unfolding exists
All-walked [] = tt
All-walked (s ∷ txns) = (
  rw (str_eq_refl s),
  All-map (λ t. is_walked t txns ≡ true) _ txns (λ t h. ground arith) (All-walked txns),
)

ids-IsKnown :
    (p : IapPlatform) (i : ℕ) (walked : List String) (refs : List EntitlementTransaction)
    (t : String)
    → is_walked t walked ≡ true
    → IsKnown p (index_ids p i walked refs) t
ids-IsKnown p i walked refs t w e = elim (Option-cases (find_ref p t refs)) [
  | inr (r, f) ↦ (r, find_ref-index_ids p p i walked t refs ∙ (rw f))
  | inl f ↦ (
    ref_row p i t,
    find_ref-index_ids p p i walked t refs ∙ (rw (f, w, e, (platform_eq_iff p p).1 refl)),
  )
]

-- ---------------------------------------------------------------- the row

update_self :
    (es : List SubscriptionEntitlement) (e : SubscriptionEntitlement)
    → All (λ x. x.id == e.id ≡ true → x ≡ e) es
    → update (λ r. r.id == e.id) (λ _. e) es ≡ es
unfolding update
update_self [] e h = refl
update_self (x ∷ es) e h = elim (Bool-cases (x.id == e.id)) [
  | inl p ↦ rw (p, update_self es e h.1) (ap (λ y. y ∷ es) (sym (h.0 p)))
  | inr p ↦ rw (p, update_self es e h.1)
]

refreshed_twice :
    (now : ℕ) (sub : StoreSubscription) (device : String) (event_at : Option ℕ)
    (e : SubscriptionEntitlement)
    → refreshed now sub device event_at (refreshed now sub device event_at e)
      ≡ refreshed now sub device event_at e
unfolding refreshed
refreshed_twice now sub device event_at e = ground arith

-- What follows `get_or_create` in `_write_entitlement`.
abbrev finish :
    ℕ
    → StoreSubscription
    → String
    → String
    → Option ℕ
    → SubscriptionEntitlement × IapDb
    → SubscriptionEntitlement × IapDb
finish now sub device incoming event_at (e, db) =
    let e' = refreshed now sub device event_at e in
    (
      e',
      record db {
        entitlements = update (λ r. r.id == e'.id) (λ _. e') db.entitlements;
        transactions = index_ids sub.platform e'.id (chain_ids sub incoming) db.transactions;
      },
    )

written_by :
    (now : ℕ) (sub : StoreSubscription) (device incoming : String) (event_at : Option ℕ)
    (db : IapDb)
    → write_entitlement now sub device incoming event_at db
      ≡ finish now sub device incoming event_at (get_or_create now sub device db)
unfolding write_entitlement
written_by now sub device incoming event_at db = refl

module _ (now : ℕ) (sub : StoreSubscription) (device incoming : String) (event_at : Option ℕ)
    (db : IapDb) (wf : IsWellFormed db) where
  abbrev row : SubscriptionEntitlement
  row = (write_entitlement now sub device incoming event_at db).0

  abbrev tables : IapDb
  tables = (write_entitlement now sub device incoming event_at db).1

  row_there : IsFound tables.entitlements tables.next_id row
  row_there = new_row-IsFound now sub device incoming event_at db wf

  got_again : get_or_create now sub device tables ≡ (row, tables)
  unfolding get_or_create
  got_again =
      let f = find_entitlement-write now sub device incoming event_at db wf in rw (f, get_or_create)

  row_again : refreshed now sub device event_at row ≡ row
  unfolding write_entitlement
  row_again = refreshed_twice now sub device event_at (get_or_create now sub device db).0

  save_again : update (λ r. r.id == row.id) (λ _. row) tables.entitlements ≡ tables.entitlements
  save_again = update_self tables.entitlements row (
      All-map (IsFound tables.entitlements tables.next_id) _ tables.entitlements
        (λ x f p.
          let q : x.id ≡ row.id = (==_iff x.id row.id).0 p in cc (f.by_id, row_there.by_id, q))
        (write-IsKeyed now sub device incoming event_at db wf))

  index_again :
      index_ids sub.platform row.id (chain_ids sub incoming) tables.transactions
      ≡ tables.transactions
  index_again = index_ids_known sub.platform row.id (chain_ids sub incoming) tables.transactions (
      subst
        (λ (ts : List EntitlementTransaction).
          All (IsKnown sub.platform ts) (chain_ids sub incoming))
        (sym (transactions-write now sub device incoming event_at db wf))
        (All-map (λ t. is_walked t (chain_ids sub incoming) ≡ true) _ (chain_ids sub incoming)
          (λ t w. ids-IsKnown sub.platform row.id (chain_ids sub incoming) db.transactions t w)
          (All-walked (chain_ids sub incoming))))

  -- Writing a store state a second time, at the same time, changes nothing and returns the same
  -- row: no row is added to the entitlements or to the index.
  pub write_entitlement_idempotent :
      write_entitlement now sub device incoming event_at tables ≡ (row, tables)
  write_entitlement_idempotent =
      written_by now sub device incoming event_at tables
      ∙ ap (finish now sub device incoming event_at) got_again
      ∙ (simp (row_again, save_again) (simp index_again))

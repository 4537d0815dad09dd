-- ===== src/Iap/Verify/Refs.antt =====
-- The rows of the transaction index (apps/iap/services.py): each has its entitlement, and each is the
-- only one of its id.
use backend_live_canvas.Prelude.{
  ℕ, String, ◌≡◌, refl, ◌∙◌, inl, inr, some, List, [], ◌∷◌, ◌++◌, All, All-append, All-map, first,
  first-append, str_eq_refl, truthy, Bool-cases, Option-cases,
}
use backend_live_canvas.Iap.Models.{
  IapPlatform, SubscriptionEntitlement, EntitlementTransaction, platform_eq_iff,
}
use backend_live_canvas.Iap.Tables.{entitlement_by_id, find_ref, is_ref}
use backend_live_canvas.Iap.Verify.{index_id, index_ids}
use backend_live_canvas.Iap.Verify.Index.{ref_row}
use backend_live_canvas.Iap.Verify.Invariant.{SameKey}

-- The foreign key of an index row has its entitlement, on the same platform.
abbrev pub HasEntitlement : List SubscriptionEntitlement → EntitlementTransaction → Type 0
HasEntitlement es r =
    (e : SubscriptionEntitlement) × (entitlement_by_id r.entitlement es ≡ some e)
    × (e.platform ≡ r.platform)

abbrev pub IsOnlyRef : List EntitlementTransaction → EntitlementTransaction → Type 0
IsOnlyRef refs r = find_ref r.platform r.transaction_id refs ≡ some r

-- ---------------------------------------------------------------- the index rows

module _ (P : EntitlementTransaction → Type 0) (p : IapPlatform) (i : ℕ)
    (row : (txn : String) → P (ref_row p i txn)) where
  index_id-All :
      (txn : String) (refs : List EntitlementTransaction)
      → All P refs
      → All P (index_id p i txn refs)
  unfolding index_id
  index_id-All txn refs h = elim (Bool-cases (truthy txn)) [
    | inr e ↦ rw e h
    | inl e ↦ elim (Option-cases (find_ref p txn refs)) [
      | inr (r, f) ↦ rw (e, f) h
      | inl f ↦ rw (e, f) (All-append P refs (ref_row p i txn ∷ []) h (row txn, tt))
    ]
  ]

  pub index_ids-All :
      (txns : List String) (refs : List EntitlementTransaction)
      → All P refs
      → All P (index_ids p i txns refs)
  unfolding index_ids
  index_ids-All [] refs h = h
  index_ids-All (txn ∷ txns) refs h =
      index_ids-All txns (index_id p i txn refs) (index_id-All txn refs h)

index_id-only :
    (p : IapPlatform) (i : ℕ) (txn : String) (refs : List EntitlementTransaction)
    → All (IsOnlyRef refs) refs
    → All (IsOnlyRef (index_id p i txn refs)) (index_id p i txn refs)
unfolding index_id first
index_id-only p i txn refs h = elim (Bool-cases (truthy txn)) [
  | inr e ↦ rw e h
  | inl e ↦ elim (Option-cases (find_ref p txn refs)) [
    | inr (r, f) ↦ rw (e, f) h
    | inl f ↦
        let row = ref_row p i txn in
        rw (e, f)
          (All-append (IsOnlyRef (refs ++ row ∷ [])) refs (row ∷ [])
            (All-map (IsOnlyRef refs) (IsOnlyRef (refs ++ row ∷ [])) refs
              (λ r k. first-append (is_ref r.platform r.transaction_id) refs (row ∷ []) ∙ (rw k)) h)
            (
              first-append (is_ref p txn) refs (row ∷ [])
                  ∙ (rw (f, (platform_eq_iff p p).1 refl, str_eq_refl txn)),
              tt,
            ))
  ]
]

pub index_ids-only :
    (p : IapPlatform) (i : ℕ) (txns : List String) (refs : List EntitlementTransaction)
    → All (IsOnlyRef refs) refs
    → All (IsOnlyRef (index_ids p i txns refs)) (index_ids p i txns refs)
unfolding index_ids
index_ids-only p i [] refs h = h
index_ids-only p i (txn ∷ txns) refs h =
    index_ids-only p i txns (index_id p i txn refs) (index_id-only p i txn refs h)

-- ---------------------------------------------------------------- the entitlement row

-- Rows keep their keys from one table to the next.
abbrev pub Keeps : List SubscriptionEntitlement → List SubscriptionEntitlement → Type 0
Keeps es es' =
    (i : ℕ) (x : SubscriptionEntitlement)
    → entitlement_by_id i es ≡ some x
    → (y : SubscriptionEntitlement) × (entitlement_by_id i es' ≡ some y) × SameKey y x

pub refs-Keeps :
    (es es' : List SubscriptionEntitlement) (refs : List EntitlementTransaction)
    → Keeps es es'
    → All (HasEntitlement es) refs
    → All (HasEntitlement es') refs
refs-Keeps es es' refs k =
    All-map (HasEntitlement es) (HasEntitlement es') refs
      λ r (e, f, q). let (y, g, s) = k r.entitlement e f in (y, g, s.platform ∙ q)

-- ===== src/Iap/Verify/Index.antt =====
-- The index of the transaction ids (apps/iap/services.py, the loop of `_write_entitlement`): what
-- it resolves, in whatever order the ids are walked.
use backend_live_canvas.Prelude.{
  ℕ, String, ◌≡◌, refl, ap, sym, ◌∙◌, inl, inr, Bool, false, ◌&&◌, ◌||◌, Option, none, some, List,
  [], ◌∷◌, first, exists, or_first, first-append, str_eq, str_eq_iff, str_eq_refl, and_true, truthy,
  Bool-cases, Option-cases, if◌then◌else◌, arith,
}
use backend_live_canvas.Iap.Models.{
  IapPlatform, EntitlementTransaction, platform_eq, platform_eq_iff,
}
use backend_live_canvas.Iap.Tables.{find_ref}
use backend_live_canvas.Iap.Verify.{index_id, index_ids}

abbrev pub ref_row : IapPlatform → ℕ → String → EntitlementTransaction
ref_row p i txn = record { entitlement = i; platform = p; transaction_id = txn }

-- Whether an id is one of those that are walked.
abbrev pub is_walked : String → List String → Bool
is_walked t txns = exists (λ s. str_eq s t) txns

or_first-none : {A : Type 0} (x : Option A) → or_first x none ≡ x
or_first-none none = refl
or_first-none (some a) = refl

or_first_assoc :
    {A : Type 0} (x y z : Option A) → or_first (or_first x y) z ≡ or_first x (or_first y z)
or_first_assoc none y z = refl
or_first_assoc (some a) y z = refl

-- What one round adds for the id `t` on platform `q`.
abbrev pub added : IapPlatform → ℕ → IapPlatform → String → Bool → Option EntitlementTransaction
added p i q t walked =
    if platform_eq p q && (truthy t && walked) then some (ref_row p i t) else none

-- A round changes nothing for another id or platform.
index_id_other :
    (p q : IapPlatform) (i : ℕ) (txn t : String) (refs : List EntitlementTransaction)
    → platform_eq p q && str_eq txn t ≡ false
    → find_ref q t (index_id p i txn refs) ≡ find_ref q t refs
unfolding index_id
index_id_other p q i txn t refs h = elim (Bool-cases (truthy txn)) [
  | inr e ↦ rw e
  | inl e ↦ elim (Option-cases (find_ref p txn refs)) [
    | inr (r, f) ↦ rw (e, f)
    | inl f ↦
        rw (e, f)
          (first-append (λ r. platform_eq r.platform q && str_eq r.transaction_id t) refs _
            ∙ (unfold first in rw h (or_first-none (find_ref q t refs))))
  ]
]

index_id_same :
    (p : IapPlatform) (i : ℕ) (t : String) (refs : List EntitlementTransaction)
    → find_ref p t (index_id p i t refs)
      ≡ or_first (find_ref p t refs) (if truthy t then some (ref_row p i t) else none)
unfolding index_id
index_id_same p i t refs = elim (Bool-cases (truthy t)) [
  | inr e ↦ rw e (sym (or_first-none (find_ref p t refs)))
  | inl e ↦ elim (Option-cases (find_ref p t refs)) [
    | inr (r, f) ↦ rw (e, f, f)
    | inl f ↦
        rw (e, f)
          (first-append (λ r. platform_eq r.platform p && str_eq r.transaction_id t) refs _
            ∙ (unfold first in rw (f, (platform_eq_iff p p).1 refl, str_eq_refl t)))
  ]
]

added-none :
    (p q : IapPlatform) (i : ℕ) (t : String) (walked : Bool)
    → platform_eq p q && walked ≡ false
    → added p i q t walked ≡ none
added-none p q i t walked h = ground arith

find_ref-index_id :
    (p q : IapPlatform) (i : ℕ) (txn t : String) (refs : List EntitlementTransaction)
    → find_ref q t (index_id p i txn refs)
      ≡ or_first (find_ref q t refs) (added p i q t (str_eq txn t))
find_ref-index_id p q i txn t refs = elim (Bool-cases (platform_eq p q && str_eq txn t)) [
  | inr e ↦
      index_id_other p q i txn t refs e
      ∙ (rw (added-none p q i t (str_eq txn t) e) (sym (or_first-none (find_ref q t refs))))
  | inl e ↦
      let (pq, tt') = and_true (platform_eq p q) (str_eq txn t) e in
      rw ((platform_eq_iff p q).0 pq, (str_eq_iff txn t).0 tt')
        (index_id_same q i t refs
          ∙ (rw ((platform_eq_iff q q).1 refl, str_eq_refl t) (ground arith)))
]

added_or :
    (p q : IapPlatform) (i : ℕ) (t : String) (a b : Bool)
    → or_first (added p i q t a) (added p i q t b) ≡ added p i q t (a || b)
added_or p q i t a b = ground arith

-- After the loop an id resolves as before, and an id that did not resolve resolves to the new
-- entitlement exactly when it is one of those walked, and not empty: the order does not matter.
pub find_ref-index_ids :
    (p q : IapPlatform) (i : ℕ) (txns : List String) (t : String)
    (refs : List EntitlementTransaction)
    → find_ref q t (index_ids p i txns refs)
      ≡ or_first (find_ref q t refs) (added p i q t (is_walked t txns))
unfolding index_ids exists
find_ref-index_ids p q i [] t refs =
    rw (added-none p q i t false (ground arith)) (sym (or_first-none (find_ref q t refs)))
find_ref-index_ids p q i (txn ∷ txns) t refs =
    find_ref-index_ids p q i txns t (index_id p i txn refs)
    ∙ (rw (find_ref-index_id p q i txn t refs) (
        or_first_assoc (find_ref q t refs) (added p i q t (str_eq txn t))
          (added p i q t (is_walked t txns))
        ∙ ap (or_first (find_ref q t refs)) (added_or p q i t (str_eq txn t) (is_walked t txns))))

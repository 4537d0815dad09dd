-- ===== src/Iap/Verify/Invariant.antt =====
-- The well-formedness of the entitlement table (apps/iap/models.py), and that inserting and saving
-- a row keep it.
use backend_live_canvas.Prelude.{
  ℕ, ◌+◌, ◌<◌, String, ◌≡◌, refl, sym, ◌∙◌, ap, ap₂, subst, inl, inr, ◌&&◌, none, some, List, [],
  ◌∷◌, ◌++◌, ◌==◌, ==_iff, All, All-append, All-map, All-update, first, update, first-append,
  first-update, first-All, first-none, first_sound, replaced, map_option, str_eq, str_eq_refl,
  str_eq_iff, and_true, Bool-cases, arith,
}
use backend_live_canvas.Iap.Models.{
  IapPlatform, SubscriptionEntitlement, platform_eq, platform_eq_iff,
}
use backend_live_canvas.Iap.Tables.{find_entitlement, entitlement_by_id, is_subscription}

-- A row is found by its primary key and by its subscription, and its key is below the next one.
pub record IsFound (es : List SubscriptionEntitlement) (next : ℕ) (e : SubscriptionEntitlement)
    : Type 0 where
  pub by_id : entitlement_by_id e.id es ≡ some e
  pub by_key : find_entitlement e.platform e.original_transaction_id es ≡ some e
  pub fresh : e.id < next

-- Every row is found: primary keys are distinct, and so are subscriptions.
abbrev pub IsKeyed : List SubscriptionEntitlement → ℕ → Type 0
IsKeyed es next = All (IsFound es next) es

-- The row with a given primary key, in a keyed table.
pub IsFound-of_by_id :
    (es : List SubscriptionEntitlement) (next i : ℕ) {e : SubscriptionEntitlement}
    → IsKeyed es next
    → entitlement_by_id i es ≡ some e
    → IsFound es next e × (e.id ≡ i)
IsFound-of_by_id es next i {e} h f =
    (first-All (IsFound es next) _ es h f, (==_iff e.id i).0 (first_sound _ es f))

pub IsFound-of_by_key :
    (es : List SubscriptionEntitlement) (next : ℕ) (p : IapPlatform) (o : String)
    {e : SubscriptionEntitlement}
    → IsKeyed es next
    → find_entitlement p o es ≡ some e
    → IsFound es next e × (e.platform ≡ p) × (e.original_transaction_id ≡ o)
IsFound-of_by_key es next p o {e} h f =
    let (a, b) =
      and_true (platform_eq e.platform p) (str_eq e.original_transaction_id o)
        (first_sound (is_subscription p o) es f) in
    (
      first-All (IsFound es next) (is_subscription p o) es h f,
      (platform_eq_iff e.platform p).0 a,
      (str_eq_iff e.original_transaction_id o).0 b,
    )

-- ---------------------------------------------------------------- inserting a row

module _ (es : List SubscriptionEntitlement) (next : ℕ) (e : SubscriptionEntitlement)
    (new_id : e.id ≡ next) (keyed : IsKeyed es next)
    (absent : find_entitlement e.platform e.original_transaction_id es ≡ none) where
  kept_of_append :
      (x : SubscriptionEntitlement) → IsFound es next x → IsFound (es ++ e ∷ []) (next + 1) x
  kept_of_append x f = record {
    by_id = first-append (λ r. r.id == x.id) es (e ∷ []) ∙ (rw f.by_id);
    by_key =
        first-append (is_subscription x.platform x.original_transaction_id) es (e ∷ [])
        ∙ (rw f.by_key);
    fresh = omega (arith, f.fresh);
  }

  id_absent : entitlement_by_id e.id es ≡ none
  id_absent =
      first-none (λ r. r.id == e.id) es
        (All-map (IsFound es next) _ es (λ x f. ground (arith, f.fresh)) keyed)

  pub new-IsFound : IsFound (es ++ e ∷ []) (next + 1) e
  unfolding first
  new-IsFound = record {
    by_id =
        first-append (λ r. r.id == e.id) es (e ∷ []) ∙ (rw (id_absent, (==_iff e.id e.id).1 refl));
    by_key =
        first-append (is_subscription e.platform e.original_transaction_id) es (e ∷ [])
        ∙ (rw (
          absent,
          (platform_eq_iff e.platform e.platform).1 refl,
          str_eq_refl e.original_transaction_id,
        ));
    fresh = omega (arith, new_id);
  }

  -- A new row with the next primary key and a new subscription keeps the table keyed.
  pub append-IsKeyed : IsKeyed (es ++ e ∷ []) (next + 1)
  append-IsKeyed =
      All-append _ es (e ∷ []) (All-map (IsFound es next) _ es kept_of_append keyed)
        (new-IsFound, tt)

-- ---------------------------------------------------------------- saving a row

-- Two rows of one subscription under one primary key.
pub record SameKey (a b : SubscriptionEntitlement) : Type 0 where
  pub id : a.id ≡ b.id
  pub platform : a.platform ≡ b.platform
  pub original : a.original_transaction_id ≡ b.original_transaction_id

abbrev pub saved : SubscriptionEntitlement → SubscriptionEntitlement → SubscriptionEntitlement
saved e' = replaced (λ r. r.id == e'.id) (λ _. e')

module _ (es : List SubscriptionEntitlement) (next : ℕ) (e e' : SubscriptionEntitlement)
    (keyed : IsKeyed es next) (there : IsFound es next e) (same : SameKey e' e) where
  pub same_row : (x : SubscriptionEntitlement) → IsFound es next x → x.id ≡ e'.id → x ≡ e
  same_row x f h =
      let ids : x.id ≡ e.id = h ∙ same.id in
      let found : some x ≡ some e =
        sym f.by_id ∙ ap (λ (i : ℕ). entitlement_by_id i es) ids ∙ there.by_id in
      cc

  pub saved-SameKey : (x : SubscriptionEntitlement) → IsFound es next x → SameKey (saved e' x) x
  saved-SameKey x f = elim (Bool-cases (x.id == e'.id)) [
    | inr h ↦ rw h (record { id = refl; platform = refl; original = refl })
    | inl h ↦ rw h (subst (λ y. SameKey e' y) (sym (same_row x f ((==_iff x.id e'.id).0 h))) same)
  ]

  -- What a lookup finds after the save: the saved form of what it found before.
  pub by_id-save :
      (i : ℕ)
      → entitlement_by_id i (update (λ r. r.id == e'.id) (λ _. e') es)
        ≡ map_option (saved e') (entitlement_by_id i es)
  by_id-save i =
      first-update (λ r. r.id == i) (λ r. r.id == e'.id) (λ _. e') es
        (All-map (IsFound es next) _ es (λ x f. ap (λ (j : ℕ). j == i) (saved-SameKey x f).id)
          keyed)

  pub by_key-save :
      (p : IapPlatform) (o : String)
      → find_entitlement p o (update (λ r. r.id == e'.id) (λ _. e') es)
        ≡ map_option (saved e') (find_entitlement p o es)
  by_key-save p o =
      first-update (is_subscription p o) (λ r. r.id == e'.id) (λ _. e') es
        (All-map (IsFound es next) _ es
          (λ x f.
            let k = saved-SameKey x f in
            ap₂ (λ (q : IapPlatform) (u : String). platform_eq q p && str_eq u o) k.platform
              k.original)
          keyed)

  saved-IsFound :
      (x : SubscriptionEntitlement)
      → IsFound es next x
      → IsFound (update (λ r. r.id == e'.id) (λ _. e') es) next (saved e' x)
  saved-IsFound x f =
      let k = saved-SameKey x f in
      record {
        by_id = by_id-save (saved e' x).id ∙ (rw (k.id, f.by_id));
        by_key =
            by_key-save (saved e' x).platform (saved e' x).original_transaction_id
            ∙ (rw (k.platform, k.original, f.by_key));
        fresh = rw k.id f.fresh;
      }

  -- Saving a row under the key that it has in the table keeps the table keyed.
  pub save-IsKeyed : IsKeyed (update (λ r. r.id == e'.id) (λ _. e') es) next
  save-IsKeyed =
      All-update (IsFound es next) _ (λ r. r.id == e'.id) (λ _. e') es saved-IsFound keyed

  pub save-IsFound : IsFound (update (λ r. r.id == e'.id) (λ _. e') es) next e'
  save-IsFound =
      let here : saved e' e ≡ e' = rw ((==_iff e.id e'.id).1 (sym same.id)) refl in
      subst (IsFound (update (λ r. r.id == e'.id) (λ _. e') es) next) here (saved-IsFound e there)

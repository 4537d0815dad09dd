-- ===== src/Wallpapers/Upsert/Settled.antt =====
-- What `update_or_create` (apps/wallpapers/management/commands/seed_content.py) leaves: the row under its
-- natural key holds the values, and rows under other keys are as before.
use backend_live_canvas.Prelude.{
  ℕ, suc, String, ◌≡◌, ◌≢◌, refl, sym, ◌∙◌, ap, ap₂, subst, subst₂, inl, inr, Bool, true, false,
  List, [], ◌∷◌, ◌++◌, All, map, select, update, str_eq, str_eq_iff, str_eq_of_ne, Bool-cases,
  if◌then◌else◌,
}
use mathlib.Core.List.{append-nil}
use backend_live_canvas.Core.Exec.{Result, ok}
use backend_live_canvas.Wallpapers.Upsert.{Writer, Table, matches, written, update_or_create}

-- Writing values keeps the natural key, writes the same values once, and a new row has them.
pub record IsLawful {R T : Type 0} (w : Writer R T) : Type 0 where
  pub key_apply : (r : R) (x : T) → w.key_of (w.apply r x) ≡ w.key_of x
  pub key_create : (now : ℕ) (r : R) (n : ℕ) → w.key_of (w.create now r n) ≡ w.wanted r
  pub apply_twice : (r : R) (x : T) → w.apply r (w.apply r x) ≡ w.apply r x
  pub apply_create : (now : ℕ) (r : R) (n : ℕ) → w.apply r (w.create now r n) ≡ w.create now r n

-- The table holds the values in one row, `x`.
pub record SettledAt {R T : Type 0} (w : Writer R T) (r : R) (x : T) (rows : List T) : Type 0 where
  pub only : select (matches w r) rows ≡ x ∷ []
  pub same : w.apply r x ≡ x

module _ {A : Type 0} (p : A → Bool) where
  pub select-append : (xs ys : List A) → select p (xs ++ ys) ≡ select p xs ++ select p ys
  unfolding select
  select-append [] ys = refl
  select-append (x ∷ xs) ys = elim (Bool-cases (p x)) [
    | inl e ↦ rw e (ap (λ zs. x ∷ zs) (select-append xs ys))
    | inr e ↦ rw e (select-append xs ys)
  ]

  select-one_true : (x : A) → p x ≡ true → select p (x ∷ []) ≡ x ∷ []
  unfolding select
  select-one_true x h = rw h refl

  select-one_false : (x : A) → p x ≡ false → select p (x ∷ []) ≡ []
  unfolding select
  select-one_false x h = rw h refl

  select-update_self :
      (f : A → A) (xs : List A)
      → ((x : A) → p (f x) ≡ p x)
      → select p (update p f xs) ≡ map f (select p xs)
  unfolding select update
  select-update_self f [] h = refl
  select-update_self f (x ∷ xs) h = elim (Bool-cases (p x)) [
    | inl e ↦
        let e' : p (f x) ≡ true = h x ∙ e in
        rw (e, e') (ap (λ zs. f x ∷ zs) (select-update_self f xs h))
    | inr e ↦ rw e (rw e (select-update_self f xs h))
  ]

  -- A change of rows that another test lets pass, and this one neither before nor after.
  select-update_other :
      (q : A → Bool) (f : A → A) (xs : List A)
      → ((x : A) → q x ≡ true → (p x ≡ false) × (p (f x) ≡ false))
      → select p (update q f xs) ≡ select p xs
  unfolding select update
  select-update_other q f [] h = refl
  select-update_other q f (x ∷ xs) h = elim (Bool-cases (q x)) [
    | inl e ↦ let (a, b) = h x e in rw (e, a) (rw b (select-update_other q f xs h))
    | inr e ↦ rw e (ap (λ zs. if p x then x ∷ zs else zs) (select-update_other q f xs h))
  ]

  -- Every row that the test finds is one of the selection.
  update-settled : (f : A → A) (xs : List A) → All (λ x. f x ≡ x) (select p xs) → update p f xs ≡ xs
  unfolding select update
  update-settled f [] h = refl
  update-settled f (x ∷ xs) h = elim (Bool-cases (p x)) [
    | inl e ↦
        let (a, b) : All (λ y. f y ≡ y) (x ∷ select p xs) = rw e at h in
        rw (e, a) (ap (λ zs. x ∷ zs) (update-settled f xs b))
    | inr e ↦ rw e (ap (λ zs. x ∷ zs) (update-settled f xs (rw e at h)))
  ]

ok_parts :
    {A B : Type 0} (a : A) (b : B) {c : A} {d : B}
    → ◌≡◌ {A = Result (A × B)} (ok (a, b)) (ok (c, d))
    → (a ≡ c) × (b ≡ d)
ok_parts a b h = (cc, cc)

module _ {R T : Type 0} (w : Writer R T) (lawful : IsLawful w) (now : ℕ) (r : R) (t : Table T) where
  matches_created : matches w r (w.create now r t.next) ≡ true
  matches_created = (str_eq_iff _ _).1 (lawful.key_create now r t.next)

  settled_by :
      (sel : List T)
      → select (matches w r) t.rows ≡ sel
      → {x : T} {t' : Table T} → written now w r t sel ≡ ok (x, t')
      → SettledAt w r x t'.rows
  settled_by [] s {x} {t'} h =
      let new = w.create now r t.next in
      let (q, u) = ok_parts new (record { rows = t.rows ++ new ∷ []; next = suc t.next }) h in
      subst₂ (λ (y : T) (v : Table T). SettledAt w r y v.rows) q u
        (record {
          only =
              select-append (matches w r) t.rows (new ∷ [])
              ∙ ap₂ (λ (ys zs : List T). ys ++ zs) s
                  (select-one_true (matches w r) new matches_created);
          same = lawful.apply_create now r t.next;
        })
  settled_by (y ∷ []) s {x} {t'} h =
      let (q, u) =
        ok_parts (w.apply r y) (record t { rows = update (matches w r) (w.apply r) t.rows }) h in
      subst₂ (λ (z : T) (v : Table T). SettledAt w r z v.rows) q u
        (record {
          only =
              select-update_self (matches w r) (w.apply r) t.rows
                (λ z. ap (λ (k : String). str_eq k (w.wanted r)) (lawful.key_apply r z))
              ∙ ap (map (w.apply r)) s;
          same = lawful.apply_twice r y;
        })
  settled_by (y ∷ z ∷ ys) s h = absurd (cc)

  -- A write that succeeds leaves its values in one row.
  pub update_or_create-SettledAt :
      {x : T} {t' : Table T} → update_or_create now w r t ≡ ok (x, t') → SettledAt w r x t'.rows
  unfolding update_or_create
  update_or_create-SettledAt h = settled_by (select (matches w r) t.rows) refl h

  module _ (r' : R) (other : w.wanted r' ≢ w.wanted r) where
    not_matched : (x : T) → matches w r x ≡ true → matches w r' x ≡ false
    not_matched x h =
        str_eq_of_ne (w.key_of x) (w.wanted r')
          (λ e. other (sym e ∙ (str_eq_iff (w.key_of x) (w.wanted r)).0 h))

    matches_applied : (x : T) → matches w r' (w.apply r x) ≡ matches w r' x
    matches_applied x = ap (λ (k : String). str_eq k (w.wanted r')) (lawful.key_apply r x)

    kept_by :
        (sel : List T) {x : T} {t' : Table T}
        → written now w r t sel ≡ ok (x, t')
        → select (matches w r') t'.rows ≡ select (matches w r') t.rows
    kept_by [] {x} {t'} h =
        let new = w.create now r t.next in
        let (q, u) = ok_parts new (record { rows = t.rows ++ new ∷ []; next = suc t.next }) h in
        subst (λ (v : Table T). select (matches w r') v.rows ≡ select (matches w r') t.rows) u
          (select-append (matches w r') t.rows (new ∷ [])
            ∙ ap (λ (zs : List T). select (matches w r') t.rows ++ zs)
                (select-one_false (matches w r') new (not_matched new matches_created))
            ∙ append-nil (select (matches w r') t.rows))
    kept_by (y ∷ []) {x} {t'} h =
        let (q, u) =
          ok_parts (w.apply r y) (record t { rows = update (matches w r) (w.apply r) t.rows }) h in
        subst (λ (v : Table T). select (matches w r') v.rows ≡ select (matches w r') t.rows) u
          (select-update_other (matches w r') (matches w r) (w.apply r) t.rows
            (λ z e. (not_matched z e, matches_applied z ∙ not_matched z e)))
    kept_by (y ∷ z ∷ ys) h = absurd (cc)

    -- A write leaves the rows under another key alone.
    pub update_or_create-other :
        {x : T} {t' : Table T}
        → update_or_create now w r t ≡ ok (x, t')
        → select (matches w r') t'.rows ≡ select (matches w r') t.rows
    unfolding update_or_create
    update_or_create-other h = kept_by (select (matches w r) t.rows) h

  -- Values that the table holds already are written without effect.
  pub update_or_create-settled :
      (x : T) → SettledAt w r x t.rows → update_or_create now w r t ≡ ok (x, t)
  unfolding update_or_create
  update_or_create-settled x s =
      let rows : update (matches w r) (w.apply r) t.rows ≡ t.rows =
        update-settled (matches w r) (w.apply r) t.rows (rw s.only (s.same, tt)) in
      ap (written now w r t) s.only
      ∙ ap₂ (λ (y : T) (xs : List T). ok (y, record t { rows = xs })) s.same rows

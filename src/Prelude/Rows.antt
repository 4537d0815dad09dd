-- ===== src/Prelude/Rows.antt =====
-- Queries and updates on a table: what a lookup finds after a row is added or replaced.
use mathlib.Core.Path.{◌≡◌, refl}
use mathlib.Core.Bool.{Bool, false}
use mathlib.Core.Logic.{inl, inr}
use mathlib.Core.Option.{Option, none, some}
use mathlib.Core.List.{List, [], ◌∷◌}
use backend_live_canvas.Prelude.Tests.{if◌then◌else◌, Bool-cases}
use backend_live_canvas.Prelude.Lists.{first, update, All}

abbrev pub map_option {ℓ κ} : {A : Type ℓ} {B : Type κ} → (A → B) → Option A → Option B
map_option f none = none
map_option f (some a) = some (f a)

module _ {ℓ} {A : Type ℓ} where
  -- A fact of every row holds of a row that is found.
  pub first-All {κ} :
      (P : A → Type κ) (k : A → Bool) (xs : List A) {a : A} → All P xs → first k xs ≡ some a → P a
  unfolding first
  first-All P k [] h e = cc
  first-All P k (x ∷ xs) {a} h e = elim (Bool-cases (k x)) [
    | inl p ↦ let q : some x ≡ some a = rw p at e in rw (← some_eq x a q) h.0
    | inr p ↦ first-All P k xs h.1 (rw p at e)
  ]
    where
      some_eq : (x a : A) → some x ≡ some a → x ≡ a
      some_eq x a q = cc

  pub first-none : (k : A → Bool) (xs : List A) → All (λ x. k x ≡ false) xs → first k xs ≡ none
  unfolding first
  first-none k [] h = refl
  first-none k (x ∷ xs) h = rw h.0 (first-none k xs h.1)

  abbrev pub replaced : (A → Bool) → (A → A) → A → A
  replaced t f x = if t x then f x else x

  -- A replacement that keeps what the lookup tests is seen through it.
  pub first-update :
      (k t : A → Bool) (f : A → A) (xs : List A)
      → All (λ x. k (replaced t f x) ≡ k x) xs
      → first k (update t f xs) ≡ map_option (replaced t f) (first k xs)
  unfolding first update
  first-update k t f [] h = refl
  first-update k t f (x ∷ xs) h =
      rw h.0 (elim (Bool-cases (k x)) [ inl p ↦ rw p | inr p ↦ rw p (first-update k t f xs h.1) ])

  pub All-update {κ μ} :
      (P : A → Type κ) (Q : A → Type μ) (t : A → Bool) (f : A → A) (xs : List A)
      → ((x : A) → P x → Q (replaced t f x))
      → All P xs
      → All Q (update t f xs)
  unfolding update
  All-update P Q t f [] g h = tt
  All-update P Q t f (x ∷ xs) g h = (g x h.0, All-update P Q t f xs g h.1)

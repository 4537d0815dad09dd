-- ===== src/Wallpapers/Home/Order.antt =====
-- `order_by` of apps/wallpapers/services.py sorts, and loses no row's property.
use backend_live_canvas.Prelude.{
  ℕ, zero, suc, ◌≡◌, inl, inr, Bool, true, false, ◌&&◌, ◌||◌, List, [], ◌∷◌, take, select, map, All,
  All-map, All-select_of, All-take, ltb, ◌==◌, Bool-cases, arith,
}
use backend_live_canvas.Wallpapers.Home.{insert, order_by, by_home_position}

module _ {A : Type 0} (before : A → A → Bool) where
  -- No row stands behind one that it has to come before.
  abbrev pub IsSorted : List A → Type 0
  IsSorted [] = Unit
  IsSorted (x ∷ xs) = All (λ y. before y x ≡ false) xs × IsSorted xs

  -- What the tests of the program have in common.
  pub record IsOrder : Type 0 where
    pub asym : (x y : A) → before x y ≡ true → before y x ≡ false
    pub trans : (x y z : A) → before y x ≡ false → before z y ≡ false → before z x ≡ false

  All-insert {κ} :
      (P : A → Type κ) (x : A) (xs : List A) → P x → All P xs → All P (insert before x xs)
  unfolding insert
  All-insert P x [] p h = (p, tt)
  All-insert P x (y ∷ ys) p h = elim (Bool-cases (before y x)) [
    | inl e ↦ rw e (h.0, All-insert P x ys p h.1)
    | inr e ↦ rw e (p, h)
  ]

  pub All-order_by {κ} : (P : A → Type κ) (xs : List A) → All P xs → All P (order_by before xs)
  unfolding order_by
  All-order_by P [] h = tt
  All-order_by P (x ∷ xs) h = All-insert P x (order_by before xs) h.0 (All-order_by P xs h.1)

  insert-IsSorted : IsOrder → (x : A) (xs : List A) → IsSorted xs → IsSorted (insert before x xs)
  unfolding insert
  insert-IsSorted o x [] h = (tt, tt)
  insert-IsSorted o x (y ∷ ys) h = elim (Bool-cases (before y x)) [
    | inl e ↦
        rw e
          (All-insert (λ z. before z y ≡ false) x ys (o.asym y x e) h.0, insert-IsSorted o x ys h.1)
    | inr e ↦ rw e (
      (
        e,
        All-map (λ z. before z y ≡ false) (λ z. before z x ≡ false) ys (λ z k. o.trans x y z e k)
            h.0,
      ),
      h,
    )
  ]

  pub order_by-IsSorted : IsOrder → (xs : List A) → IsSorted (order_by before xs)
  unfolding order_by
  order_by-IsSorted o [] = tt
  order_by-IsSorted o (x ∷ xs) = insert-IsSorted o x (order_by before xs) (order_by-IsSorted o xs)

  pub select-IsSorted : (p : A → Bool) (xs : List A) → IsSorted xs → IsSorted (select p xs)
  unfolding select
  select-IsSorted p [] h = tt
  select-IsSorted p (x ∷ xs) h = elim (Bool-cases (p x)) [
    | inl e ↦ rw e (All-select_of (λ y. before y x ≡ false) p xs h.0, select-IsSorted p xs h.1)
    | inr e ↦ rw e (select-IsSorted p xs h.1)
  ]

  pub take-IsSorted : (n : ℕ) (xs : List A) → IsSorted xs → IsSorted (take n xs)
  take-IsSorted zero xs h = tt
  take-IsSorted (suc n) [] h = tt
  take-IsSorted (suc n) (x ∷ xs) h =
      (All-take (λ y. before y x ≡ false) n xs h.0, take-IsSorted n xs h.1)

All-mapped {κ} :
    {A B : Type 0} (P : B → Type κ) (f : A → B) (xs : List A)
    → All (λ x. P (f x)) xs
    → All P (map f xs)
All-mapped P f [] h = tt
All-mapped P f (x ∷ xs) h = (h.0, All-mapped P f xs h.1)

pub map-IsSorted :
    {A B : Type 0} (before : B → B → Bool) (f : A → B) (xs : List A)
    → IsSorted (λ x y. before (f x) (f y)) xs
    → IsSorted before (map f xs)
map-IsSorted before f [] h = tt
map-IsSorted before f (x ∷ xs) h =
    (All-mapped (λ y. before y (f x) ≡ false) f xs h.0, map-IsSorted before f xs h.1)

pub by_home_position-IsOrder : IsOrder by_home_position
by_home_position-IsOrder = record {
  asym = λ x y h. asym x.home_position y.home_position x.id y.id h;
  trans = λ x y z h k. trans x.home_position y.home_position z.home_position x.id y.id z.id h k;
}
  where
    asym :
        (p q i j : ℕ)
        → ltb p q || (p == q && ltb i j) ≡ true
        → ltb q p || (q == p && ltb j i) ≡ false
    asym p q i j h = ground arith

    trans :
        (p q r i j k : ℕ)
        → ltb q p || (q == p && ltb j i) ≡ false
        → ltb r q || (r == q && ltb k j) ≡ false
        → ltb r p || (r == p && ltb k i) ≡ false
    trans p q r i j k h l = ground arith

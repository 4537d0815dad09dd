-- ===== src/Wallpapers/Curation/Membership.antt =====
-- The ordered membership of a collection, from the admin's write to the public read
-- (apps/wallpapers/admin_services.py and services.py).
use backend_live_canvas.Prelude.{
  ℕ, suc, ◌≤◌, ◌≡◌, ◌≢◌, refl, ◌∙◌, ap, inl, inr, Bool, true, false, not, List, [], ◌∷◌, ◌++◌, ◌==◌,
  ==_iff, All, All-map, select, ltb, Bool-cases, arith,
}
use backend_live_canvas.Wallpapers.Models.{Wallpaper, Collection, CollectionItem, Db}
use backend_live_canvas.Wallpapers.Home.{
  insert, order_by, row_of, with_row, published_members, by_position, collection_items,
}
use backend_live_canvas.Wallpapers.Home.Order.{IsSorted}
use backend_live_canvas.Wallpapers.Curation.{enumerate}

module _ {A : Type 0} where
  select-append : (p : A → Bool) (xs ys : List A) → select p (xs ++ ys) ≡ select p xs ++ select p ys
  unfolding select
  select-append p [] ys = refl
  select-append p (x ∷ xs) ys = elim (Bool-cases (p x)) [
    | inl e ↦ rw e (ap (λ r. x ∷ r) (select-append p xs ys))
    | inr e ↦ rw e (select-append p xs ys)
  ]

  -- What a filter dropped is not found behind it, and what it kept is.
  select_dropped :
      (p q : A → Bool) (xs : List A)
      → ((x : A) → q x ≡ true → p x ≡ false)
      → select p (select q xs) ≡ []
  unfolding select
  select_dropped p q [] h = refl
  select_dropped p q (x ∷ xs) h = elim (Bool-cases (q x)) [
    | inl e ↦ rw e (rw (h x e) (select_dropped p q xs h))
    | inr e ↦ rw e (select_dropped p q xs h)
  ]

  select_kept :
      (p q : A → Bool) (xs : List A)
      → ((x : A) → p x ≡ true → q x ≡ true)
      → select p (select q xs) ≡ select p xs
  unfolding select
  select_kept p q [] h = refl
  select_kept p q (x ∷ xs) h = elim (Bool-cases (p x)) [
    | inl e ↦ rw (h x e) (rw e (ap (λ r. x ∷ r) (select_kept p q xs h)))
    | inr e ↦ elim (Bool-cases (q x)) [
      | inl f ↦ rw f (rw e (select_kept p q xs h))
      | inr f ↦ rw f (rw e (select_kept p q xs h))
    ]
  ]

  append-nil : (xs : List A) → xs ++ [] ≡ xs
  append-nil [] = refl
  append-nil (x ∷ xs) = ap (λ r. x ∷ r) (append-nil xs)

  -- Sorting rows that are in order changes nothing.
  order_by_sorted :
      (before : A → A → Bool) (xs : List A) → IsSorted before xs → order_by before xs ≡ xs
  unfolding order_by
  order_by_sorted before [] h = refl
  order_by_sorted before (x ∷ xs) h =
      ap (insert before x) (order_by_sorted before xs h.1) ∙ front x xs h.0
    where
      front : (x : A) (xs : List A) → All (λ y. before y x ≡ false) xs → insert before x xs ≡ x ∷ xs
      front x [] k = refl
      front x (y ∷ ys) k = rw k.0

enumerate-From : (c k j : ℕ) (ids : List ℕ) → j ≤ k → All (λ i. j ≤ i.position) (enumerate c k ids)
enumerate-From c k j [] h = tt
enumerate-From c k j (i ∷ ids) h = (h, enumerate-From c (suc k) j ids (omega arith))

enumerate-IsSorted : (c k : ℕ) (ids : List ℕ) → IsSorted by_position (enumerate c k ids)
enumerate-IsSorted c k [] = tt
enumerate-IsSorted c k (i ∷ ids) = (
  All-map (λ j. suc k ≤ j.position) (λ j. ltb j.position k ≡ false) (enumerate c (suc k) ids)
      (λ j h. ground arith) (enumerate-From c (suc k) (suc k) ids (omega arith)),
  enumerate-IsSorted c (suc k) ids,
)

select-enumerate :
    (c k : ℕ) (ids : List ℕ)
    → select (λ i. i.collection == c) (enumerate c k ids) ≡ enumerate c k ids
unfolding select
select-enumerate c k [] = refl
select-enumerate c k (i ∷ ids) = rw ((==_iff c c).1 refl) (
    ap (λ (r : List CollectionItem). record { collection = c; wallpaper = i; position = k } ∷ r)
      (select-enumerate c (suc k) ids))

select-enumerate_other :
    (c d k : ℕ) (ids : List ℕ) → d ≢ c → select (λ i. i.collection == d) (enumerate c k ids) ≡ []
unfolding select
select-enumerate_other c d k [] n = refl
select-enumerate_other c d k (i ∷ ids) n =
    let e : (c == d) ≡ false = ground arith in rw e (select-enumerate_other c d (suc k) ids n)

-- The published wallpapers among some primary keys, in the order of the keys.
abbrev pub visible : Db → List ℕ → List Wallpaper
visible db [] = []
visible db (i ∷ ids) = with_row (row_of i db) (visible db ids)

published_members-enumerate :
    (db : Db) (c k : ℕ) (ids : List ℕ) → published_members db (enumerate c k ids) ≡ visible db ids
unfolding published_members
published_members-enumerate db c k [] = refl
published_members-enumerate db c k (i ∷ ids) =
    ap (with_row (row_of i db)) (published_members-enumerate db c (suc k) ids)

abbrev pub with_members : ℕ → List ℕ → Db → Db
with_members c ids db = record db {
  items = select (λ i. not (i.collection == c)) db.items ++ enumerate c 0 ids;
}

-- The items of the collection are the new ones.
members_of :
    (c : ℕ) (ids : List ℕ) (items : List CollectionItem)
    → select
        (λ i. i.collection == c)
        (select (λ i. not (i.collection == c)) items ++ enumerate c 0 ids)
      ≡ enumerate c 0 ids
members_of c ids items =
    select-append (λ i. i.collection == c) (select (λ i. not (i.collection == c)) items)
      (enumerate c 0 ids)
    ∙ ap (λ r. r ++ select (λ i. i.collection == c) (enumerate c 0 ids))
        (select_dropped (λ i. i.collection == c) (λ i. not (i.collection == c)) items
          (λ i h. ground arith))
    ∙ select-enumerate c 0 ids

others_of :
    (c d : ℕ) (ids : List ℕ) (items : List CollectionItem)
    → d ≢ c
    → select
        (λ i. i.collection == d)
        (select (λ i. not (i.collection == c)) items ++ enumerate c 0 ids)
      ≡ select (λ i. i.collection == d) items
others_of c d ids items n =
    select-append (λ i. i.collection == d) (select (λ i. not (i.collection == c)) items)
      (enumerate c 0 ids)
    ∙ ap (λ r. select (λ i. i.collection == d) (select (λ i. not (i.collection == c)) items) ++ r)
        (select-enumerate_other c d 0 ids n)
    ∙ append-nil (select (λ i. i.collection == d) (select (λ i. not (i.collection == c)) items))
    ∙ select_kept (λ i. i.collection == d) (λ i. not (i.collection == c)) items
        (λ i h. ground arith)

pub collection_items-with_members :
    (col : Collection) (ids : List ℕ) (db : Db)
    → collection_items col (with_members col.id ids db) ≡ visible db ids
unfolding collection_items
collection_items-with_members col ids db =
    ap (λ xs. published_members (with_members col.id ids db) (order_by by_position xs))
      (members_of col.id ids db.items)
    ∙ ap (published_members (with_members col.id ids db))
        (order_by_sorted by_position (enumerate col.id 0 ids) (enumerate-IsSorted col.id 0 ids))
    ∙ published_members-enumerate (with_members col.id ids db) col.id 0 ids
    ∙ same ids
  where
    same : (ids' : List ℕ) → visible (with_members col.id ids db) ids' ≡ visible db ids'
    same [] = refl
    same (i ∷ is) = ap (with_row (row_of i db)) (same is)

pub collection_items-with_members_other :
    (c : ℕ) (ids : List ℕ) (db : Db) (d : Collection)
    → d.id ≢ c
    → collection_items d (with_members c ids db) ≡ collection_items d db
unfolding collection_items published_members
collection_items-with_members_other c ids db d n =
    ap (λ xs. published_members (with_members c ids db) (order_by by_position xs))
      (others_of c d.id ids db.items n)
    ∙ same (order_by by_position (select (λ i. i.collection == d.id) db.items))
  where
    same :
        (items : List CollectionItem)
        → published_members (with_members c ids db) items ≡ published_members db items
    same [] = refl
    same (i ∷ items) = ap (with_row (row_of i.wallpaper db)) (same items)

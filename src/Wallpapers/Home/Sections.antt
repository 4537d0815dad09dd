-- ===== src/Wallpapers/Home/Sections.antt =====
-- What the Browse screen shows (apps/wallpapers/services.py).
use backend_live_canvas.Prelude.{
  ℕ, zero, suc, ◌+◌, ◌≤◌, ◌≡◌, refl, sym, ◌∙◌, ap, subst, inl, inr, true, false, List, [], ◌∷◌,
  ◌++◌, map, length, take, select, All, All-take, All-select, length-append, length-take-le, ◌==◌,
  ==_iff, Bool-cases, Option-cases, arith,
}
use backend_live_canvas.Wallpapers.Models.{Collection, CollectionItem, Db, is_published}
use backend_live_canvas.Wallpapers.Home.{
  row_of, published_members, collection_items, candidates, Section, section_of, has_items, collect,
  build_home_sections, by_home_position,
}
use backend_live_canvas.Wallpapers.Home.Order.{
  IsSorted, All-order_by, order_by-IsSorted, select-IsSorted, take-IsSorted, map-IsSorted,
  by_home_position-IsOrder,
}

module _ {A : Type 0} where
  append-nil : (xs : List A) → xs ++ [] ≡ xs
  append-nil [] = refl
  append-nil (x ∷ xs) = ap (λ r. x ∷ r) (append-nil xs)

  append_assoc : (xs ys zs : List A) → (xs ++ ys) ++ zs ≡ xs ++ (ys ++ zs)
  append_assoc [] ys zs = refl
  append_assoc (x ∷ xs) ys zs = ap (λ r. x ∷ r) (append_assoc xs ys zs)

  take-zero : (xs : List A) → take 0 xs ≡ []
  take-zero xs = refl

-- The loop fills the free slots with the first sections that have items.
pub collect-take :
    (db : Db) (free : ℕ) (sections : List Section) (cs : List Collection)
    → length sections + suc free ≡ 10
    → collect db sections cs
      ≡ sections ++ take (suc free) (select has_items (map (section_of db) cs))
unfolding collect select
collect-take db free sections [] h = sym (append-nil sections)
collect-take db zero sections (c ∷ cs) h =
    let n : length (sections ++ section_of db c ∷ []) ≡ length sections + 1 =
      length-append sections (section_of db c ∷ []) in
    let f : (length (sections ++ section_of db c ∷ []) == 10) ≡ true =
      (==_iff (length (sections ++ section_of db c ∷ [])) 10).1 (omega arith) in
    elim (Bool-cases (has_items (section_of db c))) [
      | inr e ↦ rw (e, collect, select) (collect-take db zero sections cs h)
      | inl e ↦ rw (e, f, collect, select)
    ]
collect-take db (suc free) sections (c ∷ cs) h =
    let n : length (sections ++ section_of db c ∷ []) ≡ length sections + 1 =
      length-append sections (section_of db c ∷ []) in
    let f : (length (sections ++ section_of db c ∷ []) == 10) ≡ false = ground arith in
    elim (Bool-cases (has_items (section_of db c))) [
      | inr e ↦ rw (e, collect, select) (collect-take db (suc free) sections cs h)
      | inl e ↦
          rw (e, f, collect, select)
            (collect-take db free (sections ++ section_of db c ∷ []) cs (omega arith)
              ∙ append_assoc sections (section_of db c ∷ [])
                  (take (suc free) (select has_items (map (section_of db) cs))))
    ]

published_members-All :
    (db : Db) (items : List CollectionItem)
    → All (λ w. is_published w ≡ true) (published_members db items)
unfolding published_members
published_members-All db [] = tt
published_members-All db (i ∷ items) = elim (Option-cases (row_of i.wallpaper db)) [
  | inl e ↦ rw (e, published_members) (published_members-All db items)
  | inr (w, e) ↦ elim (Bool-cases (is_published w)) [
    | inl f ↦ rw (e, f, published_members) (f, published_members-All db items)
    | inr f ↦ rw (e, f, published_members) (published_members-All db items)
  ]
]

pub collection_items-All :
    (c : Collection) (db : Db) → All (λ w. is_published w ≡ true) (collection_items c db)
unfolding collection_items
collection_items-All c db = published_members-All db _

-- What a section of the Browse screen keeps to.
pub record IsShown (db : Db) (s : Section) : Type 0 where
  pub flagged : s.collection.show_on_home ≡ true
  pub not_empty : 1 ≤ length s.items
  pub bounded : length s.items ≤ 10
  pub published : All (λ w. is_published w ≡ true) s.items
  pub first_members : s.items ≡ take 10 (collection_items s.collection db)

-- What the whole screen keeps to.
pub record IsScreen (db : Db) (sections : List Section) : Type 0 where
  pub bounded : length sections ≤ 10
  pub shown : All (IsShown db) sections
  pub ordered : IsSorted (λ s t. by_home_position s.collection t.collection) sections
  pub first_sections : sections ≡ take 10 (select has_items (map (section_of db) (candidates db)))

IsShown-of :
    (db : Db) (cs : List Collection)
    → All (λ c. c.show_on_home ≡ true) cs
    → All (IsShown db) (select has_items (map (section_of db) cs))
unfolding select
IsShown-of db [] h = tt
IsShown-of db (c ∷ cs) h = elim (Bool-cases (has_items (section_of db c))) [
  | inl e ↦ rw e (
    record {
      flagged = h.0;
      not_empty = ground arith;
      bounded = length-take-le 10 (collection_items c db);
      published =
          All-take (λ w. is_published w ≡ true) 10 (collection_items c db)
            (collection_items-All c db);
      first_members = refl;
    },
    IsShown-of db cs h.1,
  )
  | inr e ↦ rw e (IsShown-of db cs h.1)
]

-- The Browse screen has at most ten sections; they are the first flagged collections that have a
-- published wallpaper, by position and then primary key, each with its first published wallpapers,
-- at least one and at most ten.
pub build_home_sections-IsScreen : (db : Db) → IsScreen db (build_home_sections db)
unfolding build_home_sections candidates
build_home_sections-IsScreen db =
    let cs : List Collection = candidates db in
    let sections : List Section = select has_items (map (section_of db) cs) in
    let e : build_home_sections db ≡ take 10 sections = collect-take db 9 [] cs refl in
    subst (λ r. IsScreen db r) (sym e)
      (record {
        bounded = length-take-le 10 sections;
        shown = All-take (IsShown db) 10 sections (
            IsShown-of db cs (
              All-order_by by_home_position (λ c. c.show_on_home ≡ true)
                (select (λ c. c.show_on_home) db.collections)
                (All-select (λ c. c.show_on_home) db.collections)));
        ordered =
            take-IsSorted (λ s t. by_home_position s.collection t.collection) 10 sections
              (select-IsSorted (λ s t. by_home_position s.collection t.collection) has_items
                (map (section_of db) cs)
                (map-IsSorted (λ s t. by_home_position s.collection t.collection) (section_of db) cs
                  (order_by-IsSorted by_home_position by_home_position-IsOrder
                    (select (λ c. c.show_on_home) db.collections))));
        first_sections = refl;
      })

-- ===== src/Wallpapers/Views/Counts.antt =====
-- The counts that the content API shows (apps/wallpapers/services.py and serializers.py) agree with
-- the lists that it shows.
use backend_live_canvas.Prelude.{
  ℕ, suc, ◌+◌, ◌≡◌, refl, sym, ◌∙◌, ap, subst, ap₂, inl, inr, String, Bool, true, false, ◌&&◌, ◌||◌,
  not, Option, none, some, List, [], ◌∷◌, map, length, select, exists, first, All, In, ◌==◌, ==_iff,
  str_eq, str_eq_refl, truthy, Bool-cases, Option-cases, arith,
}
use backend_live_canvas.Core.Errors.{Exc}
use backend_live_canvas.Core.Exec.{Result, ok, err}
use backend_live_canvas.Wallpapers.Models.{
  Category, Tag, Wallpaper, Collection, CollectionItem, Db, is_published,
}
use backend_live_canvas.Wallpapers.Queries.{
  Params, Host, is_newer, orientation_result, parse_bool, has_category, build_wallpaper_queryset,
  category_count,
}
use backend_live_canvas.Wallpapers.Queries.Filtered.{
  accepts, fault, then_verdict, select_ext, select-select, build_wallpaper_queryset-accepts,
}
use backend_live_canvas.Wallpapers.Home.{
  insert, order_by, row_of, by_position, published_members, collection_items,
}
use backend_live_canvas.Wallpapers.Serializers.{
  CollectionDetail, is_published_item, collection_count, collection_payload, wallpaper_detail,
}
use backend_live_canvas.Wallpapers.Views.{get_collection_or_404, get_collection}

-- How many rows pass a test.
abbrev count_of : {A : Type 0} → (A → Bool) → List A → ℕ
count_of p xs = length (select p xs)

module _ {A : Type 0} (before : A → A → Bool) (p : A → Bool) where
  count-cons : (x : A) (xs : List A) → count_of p (x ∷ xs) ≡ count_of p (x ∷ []) + count_of p xs
  unfolding select
  count-cons x xs = elim (Bool-cases (p x)) [
    | inl e ↦ rw e (omega arith)
    | inr e ↦ rw e (omega arith)
  ]

  count-insert : (x : A) (xs : List A) → count_of p (insert before x xs) ≡ count_of p (x ∷ xs)
  unfolding insert
  count-insert x [] = refl
  count-insert x (y ∷ ys) = elim (Bool-cases (before y x)) [
    | inr e ↦ rw e refl
    | inl e ↦ rw e (
        omega (
          arith,
          count-cons y (insert before x ys),
          count-insert x ys,
          count-cons x (y ∷ ys),
          count-cons y ys,
          count-cons x ys,
        ))
  ]

  count-order_by : (xs : List A) → count_of p (order_by before xs) ≡ count_of p xs
  unfolding order_by
  count-order_by [] = refl
  count-order_by (x ∷ xs) = omega (
    arith,
    count-insert x (order_by before xs),
    count-cons x (order_by before xs),
    count-order_by xs,
    count-cons x xs,
  )

length-insert :
    {A : Type 0} (before : A → A → Bool) (x : A) (xs : List A)
    → length (insert before x xs) ≡ suc (length xs)
unfolding insert
length-insert before x [] = refl
length-insert before x (y ∷ ys) = ground (arith, length-insert before x ys)

length-order_by :
    {A : Type 0} (before : A → A → Bool) (xs : List A) → length (order_by before xs) ≡ length xs
unfolding order_by
length-order_by before [] = refl
length-order_by before (x ∷ xs) =
    length-insert before x (order_by before xs) ∙ ap suc (length-order_by before xs)

length-published_members :
    (db : Db) (items : List CollectionItem)
    → length (published_members db items) ≡ count_of (is_published_item db) items
unfolding published_members select
length-published_members db [] = refl
length-published_members db (i ∷ items) = elim (Option-cases (row_of i.wallpaper db)) [
  | inl e ↦ rw e (length-published_members db items)
  | inr (w, e) ↦ elim (Bool-cases (is_published w)) [
    | inl f ↦ rw e (rw f (ap suc (length-published_members db items)))
    | inr f ↦ rw e (rw f (length-published_members db items))
  ]
]

length-map : {A B : Type 0} (f : A → B) (xs : List A) → length (map f xs) ≡ length xs
length-map f [] = refl
length-map f (x ∷ xs) = ap suc (length-map f xs)

-- The count of a collection is the number of its items.
collection_count-length :
    (c : Collection) (db : Db) → collection_count c db ≡ length (collection_items c db)
unfolding collection_count collection_items
collection_count-length c db =
    let mine : CollectionItem → Bool = λ i. i.collection == c.id in
    sym (
      length-published_members db (order_by by_position (select mine db.items))
      ∙ count-order_by by_position (is_published_item db) (select mine db.items)
      ∙ ap (λ (is : List CollectionItem). length is)
          (select-select (is_published_item db) mine db.items))

-- GET /collections/{id} shows as many items as its `wallpaper_count` says.
pub get_collection-count :
    (tags : List Tag) (i : ℕ) (db : Db) {d : CollectionDetail}
    → get_collection tags i db ≡ ok d
    → d.meta.wallpaper_count ≡ length d.items
unfolding get_collection get_collection_or_404 collection_payload
get_collection-count tags i db {d} h = elim (Option-cases (first (λ c. c.id == i) db.collections)) [
  | inl e ↦ absurd (cc (rw (e, get_collection_or_404) at h))
  | inr (c, e) ↦
      let shown : ok (record {
        meta = collection_payload db c;
        items = map (wallpaper_detail tags db) (collection_items c db);
      })
          ≡ ok d =
        rw (e, get_collection_or_404) at h in
      let same : record {
        meta = collection_payload db c;
        items = map (wallpaper_detail tags db) (collection_items c db);
      }
          ≡ d =
        cc in
      subst (λ (x : CollectionDetail). x.meta.wallpaper_count ≡ length x.items) same
        (collection_count-length c db
          ∙ sym (length-map (wallpaper_detail tags db) (collection_items c db)))
]

-- ---------------------------------------------------------------- categories

-- No other category has the slug of `c`.
abbrev pub IsOnlySlug : Category → List Category → Type 0
IsOnlySlug c cs = All (λ d. str_eq d.slug c.slug ≡ true → d.id ≡ c.id) cs

or_true_right : (b : Bool) → (b || true) ≡ true
or_true_right true = refl
or_true_right false = refl

exists-slug_self :
    (c : Category) (cs : List Category)
    → In c cs
    → exists (λ d. d.id == c.id && str_eq d.slug c.slug) cs ≡ true
unfolding exists
exists-slug_self c [] m = elim m [ ]
exists-slug_self c (d ∷ cs) (inl e) = rw (← e) (rw ((==_iff c.id c.id).1 refl, str_eq_refl c.slug))
exists-slug_self c (d ∷ cs) (inr m) =
    rw (exists-slug_self c cs m) (or_true_right (d.id == c.id && str_eq d.slug c.slug))

exists-slug_ne :
    (c : Category) (i : ℕ) (cs : List Category)
    → IsOnlySlug c cs
    → i == c.id ≡ false
    → exists (λ d. d.id == i && str_eq d.slug c.slug) cs ≡ false
unfolding exists
exists-slug_ne c i [] h n = refl
exists-slug_ne c i (d ∷ cs) h n =
    let rest = exists-slug_ne c i cs h.1 n in
    elim (Bool-cases (str_eq d.slug c.slug)) [
      | inl e ↦
          let q : d.id ≡ c.id = h.0 e in
          let other : d.id == i ≡ false = ground arith in rw (other, rest)
      | inr e ↦ rw (e, rest) (and_false (d.id == i))
    ]
  where
    and_false : (b : Bool) → (b && false || false) ≡ false
    and_false true = refl
    and_false false = refl

has_category-eq :
    (c : Category) (db : Db) (w : Wallpaper)
    → In c db.categories
    → IsOnlySlug c db.categories
    → has_category c.slug db w ≡ (w.category == c.id)
has_category-eq c db w m h = elim (Bool-cases (w.category == c.id)) [
  | inl e ↦ rw e (
      ap (λ (i : ℕ). exists (λ d. d.id == i && str_eq d.slug c.slug) db.categories)
        ((==_iff w.category c.id).0 e)
      ∙ exists-slug_self c db.categories m)
  | inr e ↦ rw e (exists-slug_ne c w.category db.categories h e)
]

abbrev pub only_category : String → Params
only_category slug = record {
  category = some slug;
  tags = none;
  orientation = none;
  is_premium = none;
  search = none;
}

fault-none : {A : Type 0} (r : Result A) → fault none r ≡ none
fault-none (ok a) = refl
fault-none (err e) = rw (str_eq_refl "")

-- The tests of `accepts` where the category alone is given.
one_given :
    (given blank p x y z u v : Bool)
    → given ≡ true
    → blank ≡ true
    → (((p && (not given || x)) && (not (not blank) || y))
          && (not (not blank) || z)
          && (not (not blank) || u))
        && (not (not blank) || v)
      ≡ (p && x)
one_given given blank p x y z u v h k = rw (h, k) (ground arith)

-- The `wallpaper_count` of a category, as GET /categories and every nested category show it, is the
-- number of rows that GET /wallpapers pages through for the slug of the category, provided that the
-- slug is not blank and that no other category has it.
pub build_wallpaper_queryset-count :
    (host : Host) (c : Category) (db : Db)
    → In c db.categories
    → IsOnlySlug c db.categories
    → truthy c.slug ≡ true
    → (rows : List Wallpaper) × (build_wallpaper_queryset host (only_category c.slug) db ≡ ok rows)
      × (category_count c db ≡ length rows)
unfolding category_count
build_wallpaper_queryset-count host c db m h given =
    let listed = accepts host (only_category c.slug) db in
    (
      order_by is_newer (select listed db.wallpapers),
      build_wallpaper_queryset-accepts host (only_category c.slug) db
          ∙ ap₂
              (λ (f g : Option Exc).
                then_verdict f g (order_by is_newer (select listed db.wallpapers)))
              (fault-none (orientation_result host ""))
              (fault-none (parse_bool host "" "is_premium")),
      ap (λ (ws : List Wallpaper). length ws)
            (select_ext (λ w. is_published w && w.category == c.id) listed db.wallpapers
              (λ w. sym (accepts-category w)))
          ∙ sym (length-order_by is_newer (select listed db.wallpapers)),
    )
  where
    accepts-category :
        (w : Wallpaper)
        → accepts host (only_category c.slug) db w ≡ (is_published w && w.category == c.id)
    accepts-category w =
        one_given (truthy c.slug) (str_eq "" "") (is_published w) (has_category c.slug db w) _ _ _ _
          given (str_eq_refl "")
        ∙ ap (λ b. is_published w && b) (has_category-eq c db w m h)

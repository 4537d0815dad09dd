-- ===== src/Wallpapers/Views/Page.antt =====
-- A page of GET /wallpapers (apps/wallpapers/views.py and pagination.py).
use backend_live_canvas.Prelude.{
  ℕ, suc, ◌≤◌, ◌≡◌, refl, sym, ap, subst, inl, inr, String, Bool, true, false, ◌||◌, Option, none,
  some, List, [], ◌∷◌, map, length, select, All, All-select, is_some, truthy, ltb, Bool-cases,
  Option-cases, arith, if◌then◌else◌,
}
use backend_live_canvas.Core.Errors.{Exc, AppErrorClass, Detail}
use backend_live_canvas.Core.Exec.{Result, ok, err, When, then_result-When}
use backend_live_canvas.Wallpapers.Models.{Tag, Wallpaper, Db}
use backend_live_canvas.Wallpapers.Home.{order_by}
use backend_live_canvas.Wallpapers.Home.Order.{All-order_by}
use backend_live_canvas.Wallpapers.Queries.{
  Params, Host, is_newer, text_of, orientation_of, orientation_result, parse_bool,
  build_wallpaper_queryset,
}
use backend_live_canvas.Wallpapers.Queries.Filtered.{
  accepts, fault, then_verdict, build_wallpaper_queryset-accepts,
}
use backend_live_canvas.Wallpapers.Pagination.{
  Texts, Integer, natural, below, Paginator, Envelope, get_page_size, mapped, paginate_queryset,
  get_paginated_response, limit_of,
}
use backend_live_canvas.Wallpapers.Serializers.{WallpaperPayload, wallpaper_in_list}
use backend_live_canvas.Wallpapers.Views.{get_wallpapers}

-- An error of the client, with the code VALIDATION_ERROR.
abbrev pub IsInvalid : Exc → Type 0
IsInvalid e = (message : String) × (e ≡ Exc.app AppErrorClass.validation_failed message)

-- The documented behaviour of the paginator: a page has no more rows than its size, its rows are
-- rows of the query, and a cursor that cannot be decoded is reported as not found.
pub record IsPaginator (p : Paginator Wallpaper) : Type 1 where
  pub cut :
      (size : ℕ) (c : Option p.Cursor) (rows : List Wallpaper)
      → length (p.paginate size c rows).0 ≤ size
  pub kept :
      (P : Wallpaper → Type 0) (size : ℕ) (c : Option p.Cursor) (rows : List Wallpaper)
      → All P rows
      → All P (p.paginate size c rows).0
  pub complains :
      (cursor : Option String) (e : Exc)
      → p.decode_cursor cursor ≡ err e
      → (d : Detail) × (e ≡ Exc.not_found d)

-- A limit that is accepted lies in the range, and any other is refused.
get_page_size-When :
    (t : Texts) (limit : Option String)
    → When
        (λ n. (get_page_size t limit ≡ ok n) × (1 ≤ n) × (n ≤ 100))
        IsInvalid
        (get_page_size t limit)
unfolding get_page_size
get_page_size-When t none = (refl, omega arith, omega arith)
get_page_size-When t (some raw) = read (t.to_int raw)
  where
    read :
        (i : Option Integer)
        → When (λ n. (limit_of t raw i ≡ ok n) × (1 ≤ n) × (n ≤ 100)) IsInvalid (limit_of t raw i)
    read none = (_, refl)
    read (some (below n)) = (_, refl)
    read (some (natural n)) = elim (Bool-cases (ltb n 1 || ltb 100 n)) [
      | inl e ↦ rw e (_, refl)
      | inr e ↦ rw e (refl, ground arith, ground arith)
    ]

mapped-IsInvalid :
    {C : Type 0} (r : Result C)
    → ((e : Exc) → r ≡ err e → (d : Detail) × (e ≡ Exc.not_found d))
    → When (λ c. r ≡ ok c) IsInvalid (mapped r)
unfolding mapped
mapped-IsInvalid (ok c) h = refl
mapped-IsInvalid (err e) h = let (d, q) = h e refl in rw q (_, refl)

abbrev IsReadable : {A : Type 0} → Result A → Type 0
IsReadable = When (λ _. Unit {0}) IsInvalid

orientation_result-IsInvalid :
    (host : Host) (raw : String) → IsReadable (orientation_result host raw)
orientation_result-IsInvalid host raw = elim (Option-cases (orientation_of raw)) [
  | inl e ↦ rw (e, orientation_result) (_, refl)
  | inr (o, e) ↦ rw (e, orientation_result) tt
]

tests-IsInvalid :
    (b c x y : Bool) (e : Exc)
    → IsInvalid e
    → IsReadable (if b then ok x else if c then ok y else err e)
tests-IsInvalid true c x y e h = tt
tests-IsInvalid false true x y e h = tt
tests-IsInvalid false false x y e h = h

parse_bool-IsInvalid : (host : Host) (raw field : String) → IsReadable (parse_bool host raw field)
unfolding parse_bool
parse_bool-IsInvalid host raw field = tests-IsInvalid _ _ true false _ (_, refl)

abbrev IfSome : (Exc → Type 0) → Option Exc → Type 0
IfSome P none = Unit
IfSome P (some e) = P e

fault-IsInvalid :
    {A : Type 0} (raw : Option String) (r : Result A)
    → IsReadable r
    → IfSome IsInvalid (fault raw r)
fault-IsInvalid raw (ok a) h = tt
fault-IsInvalid raw (err e) h = elim (Bool-cases (truthy (text_of raw))) [
  | inl f ↦ rw f h
  | inr f ↦ rw f tt
]

then_verdict-When :
    (P : List Wallpaper → Type 0) (f g : Option Exc) (ws : List Wallpaper)
    → IfSome IsInvalid f
    → IfSome IsInvalid g
    → P ws
    → When P IsInvalid (then_verdict f g ws)
then_verdict-When P none none ws h k p = p
then_verdict-When P none (some e) ws h k p = k
then_verdict-When P (some e) g ws h k p = h

-- The rows of the query are those that the contract accepts.
rows-When :
    (host : Host) (params : Params) (db : Db)
    → When
        (All (λ w. accepts host params db w ≡ true))
        IsInvalid
        (build_wallpaper_queryset host params db)
rows-When host params db =
    let ro = orientation_result host (text_of params.orientation) in
    let rp = parse_bool host (text_of params.is_premium) "is_premium" in
    subst
      (λ (r : Result (List Wallpaper)).
        When (All (λ w. accepts host params db w ≡ true)) IsInvalid r)
      (sym (build_wallpaper_queryset-accepts host params db))
      (then_verdict-When (All (λ w. accepts host params db w ≡ true)) (fault params.orientation ro)
        (fault params.is_premium rp)
        (order_by is_newer (select (accepts host params db) db.wallpapers))
        (fault-IsInvalid params.orientation ro
          (orientation_result-IsInvalid host (text_of params.orientation)))
        (fault-IsInvalid params.is_premium rp
          (parse_bool-IsInvalid host (text_of params.is_premium) "is_premium"))
        (All-order_by is_newer (λ w. accepts host params db w ≡ true)
          (select (accepts host params db) db.wallpapers)
          (All-select (accepts host params db) db.wallpapers)))

-- An item of the response shows a row that the query accepts.
abbrev pub ShowsAccepted : Host → List Tag → Params → Db → WallpaperPayload → Type 0
ShowsAccepted host tags params db x =
    (w : Wallpaper) × (accepts host params db w ≡ true) × (x ≡ wallpaper_in_list tags db w)

-- A response of GET /wallpapers, by the limit of the request.
pub record IsPage (host : Host) (t : Texts) (tags : List Tag) (params : Params)
    (limit : Option String) (db : Db) (env : Envelope WallpaperPayload) : Type 0 where
  pub size : ℕ
  pub given : get_page_size t limit ≡ ok size
  pub at_least : 1 ≤ size
  pub at_most : size ≤ 100
  pub fits : length env.items ≤ size
  pub shown : All (ShowsAccepted host tags params db) env.items
  pub more : env.has_more ≡ is_some env.next_cursor

-- A page of a query whose rows have a property.
abbrev pub PageOf :
    (Wallpaper → Type 0) → Texts → Option String → List Wallpaper × Option String → Type 0
PageOf P t limit page =
    (size : ℕ) × (get_page_size t limit ≡ ok size)
    × (1 ≤ size)
    × (size ≤ 100)
    × (length page.0 ≤ size)
    × All P page.0

-- The position that a cursor names.
abbrev pub PlaceOf : Paginator Wallpaper → Option String → Type 0
PlaceOf p cursor = (c : Option p.Cursor) × (p.decode_cursor cursor ≡ ok c)

pub paginate_queryset-When :
    (P : Wallpaper → Type 0) (t : Texts) (p : Paginator Wallpaper)
    → IsPaginator p
    → (limit cursor : Option String) (rows : List Wallpaper) → All P rows
    → When
        (λ page. PlaceOf p cursor × PageOf P t limit page)
        IsInvalid
        (paginate_queryset t p limit cursor rows)
unfolding paginate_queryset
paginate_queryset-When P t p doc limit cursor rows h =
    then_result-When _ _ IsInvalid (get_page_size t limit) _ (get_page_size-When t limit)
      (λ size (given, low, high).
        then_result-When _ _ IsInvalid (mapped (p.decode_cursor cursor)) _
          (mapped-IsInvalid (p.decode_cursor cursor) (doc.complains cursor))
          (λ c place.
            ((c, place), (size, given, low, high, doc.cut size c rows, doc.kept P size c rows h))))

module _ (host : Host) (t : Texts) (p : Paginator Wallpaper) (doc : IsPaginator p) (tags : List Tag)
    (params : Params) (limit cursor : Option String) (db : Db) where
  shown_items :
      (ws : List Wallpaper)
      → All (λ w. accepts host params db w ≡ true) ws
      → All (ShowsAccepted host tags params db) (map (wallpaper_in_list tags db) ws)
        × (length (map (wallpaper_in_list tags db) ws) ≡ length ws)
  shown_items [] h = (tt, refl)
  shown_items (w ∷ ws) h = let (a, b) = shown_items ws h.1 in (((w, h.0, refl), a), ap suc b)

  -- GET /wallpapers answers with at most as many items as the page size that it reads from the limit,
  -- which lies between 1 and 100; each item shows a row that the filters accept, and the answer says
  -- that there is more exactly when it gives a cursor. Every failure is a VALIDATION_ERROR, also that of a cursor that the framework
  -- reports as not found.
  pub get_wallpapers-IsPage :
      When
        (IsPage host t tags params limit db)
        IsInvalid
        (get_wallpapers host t p tags params limit cursor db)
  unfolding get_wallpapers get_paginated_response
  get_wallpapers-IsPage =
      then_result-When _ _ IsInvalid (build_wallpaper_queryset host params db) _
        (rows-When host params db)
        (λ rows h.
          then_result-When _ _ IsInvalid (paginate_queryset t p limit cursor rows) _
            (paginate_queryset-When (λ w. accepts host params db w ≡ true) t p doc limit cursor rows
              h)
            (λ page (_, (size, given, low, high, fits, all)).
              let (shown, same) = shown_items page.0 all in
              record {
                size = size;
                given = given;
                at_least = low;
                at_most = high;
                fits = rw same fits;
                shown = shown;
                more = refl;
              }))

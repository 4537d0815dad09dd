-- ===== src/Wallpapers/Queries.antt =====
-- apps/wallpapers/services.py: the filters of GET /wallpapers, the lookups, and the counts.
pub mod Filtered
use backend_live_canvas.Prelude.{
  ℕ, ◌+◌, String, codes, concat, Bool, true, false, ◌&&◌, ◌||◌, not, Option, none, some, List, [],
  ◌∷◌, map, length, select, first, exists, ◌==◌, ltb, str_eq, truthy, is_some, if◌then◌else◌,
}
use backend_live_canvas.Core.Errors.{Exc, AppErrorClass}
use backend_live_canvas.Core.Exec.{Result, ok, err}
use backend_live_canvas.Audit.Lower.{lower, equal}
use backend_live_canvas.Core.Text.{strip, split_comma}
use backend_live_canvas.Wallpapers.Home.{order_by}
use backend_live_canvas.Wallpapers.Models.{
  Orientation, portrait, landscape, square, Category, Tag, Wallpaper, Collection, CollectionItem,
  Db, orientation_eq, is_reserved_slug, is_published,
}

-- The query parameters of GET /wallpapers.
pub record Params : Type 0 where
  pub category : Option String
  pub tags : Option String
  pub orientation : Option String
  pub is_premium : Option String
  pub search : Option String

-- What the code uses of Python and of the database: `repr` of a text, and `icontains`.
pub record Host : Type 0 where
  pub repr : String → String
  pub icontains : String → String → Bool

abbrev pub text_of : Option String → String
text_of none = ""
text_of (some s) = s

-- `Orientation.values`, with the member of each value.
unfoldable pub orientation_of : String → Option Orientation
orientation_of s =
    if str_eq s "portrait"
    then some portrait
    else if str_eq s "landscape"
    then some landscape
    else if str_eq s "square"
    then some square
    else none

abbrev pub has_category : String → Db → Wallpaper → Bool
has_category slug db w = exists (λ c. c.id == w.category && str_eq c.slug slug) db.categories

abbrev pub is_tagged : ℕ → Wallpaper → Bool
is_tagged i w = exists (λ j. j == i) w.tags

abbrev pub has_tag : Db → Wallpaper → String → Bool
has_tag db w slug = exists (λ t. is_tagged t.id w && str_eq t.slug slug) db.tags

-- `s and s not in RESERVED_TAG_SLUGS`
abbrev pub is_constraint : String → Bool
is_constraint s = truthy s && not (is_reserved_slug s)

-- The slugs that constrain: the parts that are neither empty nor reserved.
unfoldable pub tag_slugs : String → List String
unfolding split_comma strip
tag_slugs raw = select is_constraint (map strip (split_comma raw))

-- The chained filters, one per slug.
unfoldable pub filter_tags : Db → List String → List Wallpaper → List Wallpaper
filter_tags db [] ws = ws
filter_tags db (slug ∷ slugs) ws = filter_tags db slugs (select (λ w. has_tag db w slug) ws)

abbrev is_word : String → String → Bool
is_word value word = equal (lower (codes value)) (codes word)

-- `_parse_bool`
unfoldable pub parse_bool : Host → String → String → Result Bool
unfolding strip lower equal
parse_bool host raw field =
    let value = strip raw in
    if is_word value "true" || is_word value "1"
    then ok true
    else if is_word value "false" || is_word value "0"
    then ok false
    else err (
        Exc.app AppErrorClass.validation_failed (
          concat "Invalid boolean for '"
            (concat field (concat "': " (concat (host.repr raw) ".")))))

abbrev same_bool : Bool → Bool → Bool
same_bool true b = b
same_bool false b = not b

abbrev pub then_filter :
    {A : Type 0} → Result A → (A → Wallpaper → Bool) → List Wallpaper → Result (List Wallpaper)
then_filter (ok a) p ws = ok (select (p a) ws)
then_filter (err e) p ws = err e

-- The steps of `build_wallpaper_queryset`, each on the rows that the step before left.
abbrev pub by_category : Option String → Db → List Wallpaper → List Wallpaper
by_category slug db ws =
    if truthy (text_of slug) then select (has_category (text_of slug) db) ws else ws

abbrev pub by_tags : Option String → Db → List Wallpaper → List Wallpaper
by_tags raw db ws = if truthy (text_of raw) then filter_tags db (tag_slugs (text_of raw)) ws else ws

abbrev pub orientation_result : Host → String → Result Orientation
orientation_result host raw = elim (orientation_of raw) [
  | some o ↦ ok o
  | none ↦ err (
      Exc.app AppErrorClass.validation_failed
        (concat "Invalid orientation: " (concat (host.repr raw) ".")))
]

abbrev pub by_orientation : Host → Option String → List Wallpaper → Result (List Wallpaper)
by_orientation host raw ws =
    if truthy (text_of raw)
    then then_filter (orientation_result host (text_of raw)) (λ o w. orientation_eq w.orientation o)
        ws
    else ok ws

abbrev pub by_premium : Host → Option String → List Wallpaper → Result (List Wallpaper)
by_premium host raw ws =
    if truthy (text_of raw)
    then then_filter (parse_bool host (text_of raw) "is_premium") (λ b w. same_bool b w.is_premium)
        ws
    else ok ws

abbrev pub by_search : Host → Option String → List Wallpaper → List Wallpaper
by_search host raw ws =
    if truthy (text_of raw) then select (λ w. host.icontains w.title (text_of raw)) ws else ws

abbrev pub and_then :
    Result (List Wallpaper) → (List Wallpaper → Result (List Wallpaper)) → Result (List Wallpaper)
and_then (ok ws) f = f ws
and_then (err e) f = err e

-- `Wallpaper.Meta.ordering`, which every query of the table has: newest first, and then by primary
-- key, the larger one first.
abbrev pub is_newer : Wallpaper → Wallpaper → Bool
is_newer v w = ltb w.created_at v.created_at || (v.created_at == w.created_at && ltb w.id v.id)

-- `build_wallpaper_queryset`
unfoldable pub build_wallpaper_queryset : Host → Params → Db → Result (List Wallpaper)
unfolding filter_tags order_by
build_wallpaper_queryset host p db =
    and_then
      (by_orientation host p.orientation
        (by_tags p.tags db (by_category p.category db (select is_published db.wallpapers))))
      (λ ws.
        and_then (by_premium host p.is_premium ws)
          (λ vs. ok (order_by is_newer (by_search host p.search vs))))

-- `get_published_or_404`
unfoldable pub get_published_or_404 : ℕ → Db → Result Wallpaper
get_published_or_404 i db = elim (first (λ w. is_published w && w.id == i) db.wallpapers) [
  | none ↦ err (Exc.http404 "Wallpaper not found.")
  | some w ↦ ok w
]

-- `batch_wallpapers`
unfoldable pub batch_wallpapers : List ℕ → Db → List Wallpaper
unfolding order_by
batch_wallpapers ids db =
    order_by is_newer (select (λ w. is_published w && exists (λ i. i == w.id) ids) db.wallpapers)

-- `categories_with_counts` and `tags_with_counts`: the annotation of one row.
unfoldable pub category_count : Category → Db → ℕ
category_count c db = length (select (λ w. is_published w && w.category == c.id) db.wallpapers)

unfoldable pub tag_count : Tag → Db → ℕ
tag_count t db = length (select (λ w. is_published w && is_tagged t.id w) db.wallpapers)

-- An item of GET /tags.
pub record TagPayload : Type 0 where
  pub id : ℕ
  pub slug : String
  pub name : String
  pub wallpaper_count : ℕ

-- `build_tags_payload`, joined as `TagListView.get` joins it; `real` is the table by name.
unfoldable pub build_tags_payload : List Tag → Db → List TagPayload
unfolding tag_count
build_tags_payload real db =
    record {
      id = 0;
      slug = "all";
      name = "Tất cả";
      wallpaper_count = length (select is_published db.wallpapers);
    }
    ∷ map
        (λ t. record { id = t.id; slug = t.slug; name = t.name; wallpaper_count = tag_count t db })
        real

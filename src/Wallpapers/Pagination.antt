-- ===== src/Wallpapers/Pagination.antt =====
-- core/pagination.py and apps/wallpapers/pagination.py: the pages of GET /wallpapers. The framework's
-- paginator is an argument; what these classes change of it is here.
use backend_live_canvas.Prelude.{
  ℕ, String, concat, Bool, ◌||◌, Option, none, some, List, [], ◌∷◌, ltb, is_some, truthy,
  if◌then◌else◌,
}
use backend_live_canvas.Core.Errors.{Exc, AppErrorClass}
use backend_live_canvas.Core.Exec.{Result, ok, err, then_result}

-- What Python's `int` reads.
pub data Integer : Type 0 where
  natural : ℕ → Integer
  -- `below n` is -(n + 1)
  below : ℕ → Integer

-- The standard library: `int`, `repr`, and `parse_qs(urlparse(link).query).get("cursor")`, which is
-- empty where the link has no cursor.
pub record Texts : Type 0 where
  pub to_int : String → Option Integer
  pub repr : String → String
  pub cursors : String → List String

-- The framework's paginator of rows: it decodes the cursor of a request, and cuts a page of a size,
-- with the link to the next page.
pub record Paginator (A : Type 0) : Type 1 where
  pub Cursor : Type 0
  pub decode_cursor : Option String → Result (Option Cursor)
  pub paginate : ℕ → Option Cursor → List A → List A × Option String

abbrev pub page_size : ℕ
page_size = 20

abbrev pub max_page_size : ℕ
max_page_size = 100

abbrev head_of : List String → Option String
head_of [] = none
head_of (x ∷ _) = some x

-- `_cursor_from_link`
unfoldable pub cursor_from_link : Texts → Option String → Option String
cursor_from_link t none = none
cursor_from_link t (some link) = if truthy link then head_of (t.cursors link) else none

-- The response of a page.
pub record Envelope (A : Type 0) : Type 0 where
  pub items : List A
  pub next_cursor : Option String
  pub has_more : Bool

-- `get_paginated_response`
unfoldable pub get_paginated_response : {A : Type 0} → Texts → List A → Option String → Envelope A
unfolding cursor_from_link
get_paginated_response t items link =
    let next = cursor_from_link t link in
    record { items = items; next_cursor = next; has_more = is_some next }

-- `WallpaperCursorPagination.decode_cursor`
abbrev pub invalid_cursor : Exc
invalid_cursor = Exc.app AppErrorClass.validation_failed "Invalid or expired cursor."

unfoldable pub mapped : {A : Type 0} → Result A → Result A
mapped (ok a) = ok a
mapped (err (Exc.not_found d)) = err invalid_cursor
mapped (err e) = err e

abbrev pub bad_limit : Exc
bad_limit = Exc.app AppErrorClass.validation_failed "limit must be between 1 and 100."

abbrev pub limit_of : Texts → String → Option Integer → Result ℕ
limit_of t raw none =
    err
      (Exc.app AppErrorClass.validation_failed (concat "Invalid limit: " (concat (t.repr raw) ".")))
limit_of t raw (some (below n)) = err bad_limit
limit_of t raw (some (natural n)) = if ltb n 1 || ltb max_page_size n then err bad_limit else ok n

-- `get_page_size`
unfoldable pub get_page_size : Texts → Option String → Result ℕ
get_page_size t none = ok page_size
get_page_size t (some raw) = limit_of t raw (t.to_int raw)

module _ {A : Type 0} (t : Texts) (p : Paginator A) where
  -- `paginate_queryset`: the size of the page first, then its cursor.
  unfoldable pub paginate_queryset :
      Option String → Option String → List A → Result (List A × Option String)
  unfolding mapped get_page_size
  paginate_queryset limit cursor rows =
      then_result (get_page_size t limit)
        (λ size. then_result (mapped (p.decode_cursor cursor)) (λ c. ok (p.paginate size c rows)))

-- ===== src/Wallpapers/AdminViews/Listed.antt =====
-- A page of GET /admin/wallpapers (apps/wallpapers/admin_views.py).
use backend_live_canvas.Prelude.{
  ℕ, ◌≤◌, ◌≡◌, String, true, Option, none, some, List, ◌⊎◌, length, All, is_some,
}
use backend_live_canvas.Core.Exec.{ok}
use backend_live_canvas.Wallpapers.Models.{WallpaperStatus, status_eq, Tag, Wallpaper, Db}
use backend_live_canvas.Wallpapers.Pagination.{Texts, Paginator, Envelope, get_page_size}
use backend_live_canvas.Wallpapers.AdminViews.Listings.{
  AdminWallpaperPayload, admin_payload, status_value, is_live,
}

-- The row has the status that the filter names; a blank filter names none.
abbrev Asks : Option String → Wallpaper → Type 0
Asks none w = Unit
Asks (some raw) w =
    (raw ≡ "")
    ⊎ ((s : WallpaperStatus) × (status_value raw ≡ some s) × (status_eq w.status s ≡ true))

-- A row that is not deleted, and that has the status of the filter where there is one.
abbrev pub IsListed : Option String → Wallpaper → Type 0
IsListed status w = (is_live w ≡ true) × Asks status w

-- The filter names a status, or none: no filter, a blank one, or the text of a status.
abbrev pub IsKnown : Option String → Type 0
IsKnown none = Unit
IsKnown (some raw) = (raw ≡ "") ⊎ ((s : WallpaperStatus) × (status_value raw ≡ some s))

-- The rows of a listing, whose filter is known.
abbrev Rows : Option String → List Wallpaper → Type 0
Rows status ws = IsKnown status × All (IsListed status) ws

abbrev pub ShowsListed : List Tag → Option String → Db → AdminWallpaperPayload → Type 0
ShowsListed tags status db x = (w : Wallpaper) × IsListed status w × (x ≡ admin_payload tags db w)

-- A response of GET /admin/wallpapers.
pub record IsListing (t : Texts) (p : Paginator Wallpaper) (tags : List Tag)
    (status limit cursor : Option String) (db : Db) (env : Envelope AdminWallpaperPayload)
    : Type 0 where
  pub known : IsKnown status
  pub position : Option p.Cursor
  pub readable : p.decode_cursor cursor ≡ ok position
  pub size : ℕ
  pub given : get_page_size t limit ≡ ok size
  pub at_most : size ≤ 100
  pub fits : length env.items ≤ size
  pub shown : All (ShowsListed tags status db) env.items
  pub more : env.has_more ≡ is_some env.next_cursor

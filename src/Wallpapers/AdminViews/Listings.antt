-- ===== src/Wallpapers/AdminViews/Listings.antt =====
-- The listing endpoints of apps/wallpapers/admin_views.py.
use backend_live_canvas.Prelude.{
  String, concat, Bool, not, ◌&&◌, Option, none, some, List, map, select, is_some, str_eq, truthy,
  if◌then◌else◌,
}
use backend_live_canvas.Core.Errors.{Exc, AppErrorClass}
use backend_live_canvas.Core.Exec.{Result, ok, err, then_result}
use backend_live_canvas.Wallpapers.Models.{
  WallpaperStatus, processing, published, failed, status_eq, Tag, Wallpaper, Collection, Db,
}
use backend_live_canvas.Wallpapers.Queries.{TagPayload, is_newer}
use backend_live_canvas.Wallpapers.Home.{order_by}
use backend_live_canvas.Wallpapers.Pagination.{
  Texts, Paginator, Envelope, paginate_queryset, get_paginated_response,
}
use backend_live_canvas.Wallpapers.Serializers.{
  WallpaperPayload, CollectionPayload, wallpaper_in_list, tag_payload, collection_payload,
}

-- `AdminWallpaperSerializer`
pub record AdminWallpaperPayload : Type 0 where
  pub wallpaper : WallpaperPayload
  pub status : WallpaperStatus
  pub failure_reason : Option String

abbrev pub admin_payload : List Tag → Db → Wallpaper → AdminWallpaperPayload
admin_payload tags db w = record {
  wallpaper = wallpaper_in_list tags db w;
  status = w.status;
  failure_reason = w.failure_reason;
}

-- `WallpaperStatus.values`
unfoldable pub status_value : String → Option WallpaperStatus
status_value raw =
    if str_eq raw "processing"
    then some processing
    else if str_eq raw "published"
    then some published
    else if str_eq raw "failed"
    then some failed
    else none

-- `Wallpaper.objects.filter(deleted_at__isnull=True)`
abbrev pub is_live : Wallpaper → Bool
is_live w = not (is_some w.deleted_at)

abbrev pub has_status : WallpaperStatus → Wallpaper → Bool
has_status s w = is_live w && status_eq w.status s

abbrev pub rows_of_status : Texts → Db → String → Option WallpaperStatus → Result (List Wallpaper)
rows_of_status t db raw none =
    err
      (Exc.app AppErrorClass.validation_failed (concat "Unknown status " (concat (t.repr raw) ".")))
rows_of_status t db raw (some s) = ok (order_by is_newer (select (has_status s) db.wallpapers))

-- The rows of a listing, newest first; a blank filter is none.
unfoldable pub admin_rows : Texts → Option String → Db → Result (List Wallpaper)
unfolding status_value
admin_rows t none db = ok (order_by is_newer (select is_live db.wallpapers))
admin_rows t (some raw) db =
    if truthy raw
    then rows_of_status t db raw (status_value raw)
    else ok (order_by is_newer (select is_live db.wallpapers))

-- `AdminWallpaperListCreateView.get`
unfoldable pub list_wallpapers :
    Texts
    → Paginator Wallpaper
    → List Tag
    → Option String
    → Option String
    → Option String
    → Db
    → Result (Envelope AdminWallpaperPayload)
unfolding admin_rows
list_wallpapers t p tags status limit cursor db = then_result (admin_rows t status db) (λ rows.
    then_result (paginate_queryset t p limit cursor rows)
      (λ page. ok (get_paginated_response t (map (admin_payload tags db) page.0) page.1)))

-- `AdminTagListCreateView.get`; `tags` is the table in its order by name.
unfoldable pub list_tags : List Tag → Db → List TagPayload
unfolding tag_payload
list_tags tags db = map (tag_payload db) tags

-- `AdminCollectionListCreateView.get`; `collections` is the table, newest first.
unfoldable pub list_collections : List Collection → Db → List CollectionPayload
unfolding collection_payload
list_collections collections db = map (collection_payload db) collections

-- ===== src/Wallpapers/Views.antt =====
-- apps/wallpapers/views.py: the endpoints of the content API. `tags` is the table of tags in its order
-- by name, and `categories` that of the categories.
pub mod Page
pub mod Counts
use backend_live_canvas.Prelude.{
  ℕ, String, ◌&&◌, Bool, Option, none, some, List, [], ◌∷◌, map, length, first, ltb, leb, ◌==◌,
  if◌then◌else◌,
}
use backend_live_canvas.Core.Errors.{Exc, Detail}
use backend_live_canvas.Core.Exec.{Result, ok, err, then_result}
use backend_live_canvas.Wallpapers.Models.{Category, Tag, Wallpaper, Collection, Db}
use backend_live_canvas.Wallpapers.Queries.{
  Params, Host, TagPayload, build_wallpaper_queryset, get_published_or_404, batch_wallpapers,
  build_tags_payload,
}
use backend_live_canvas.Wallpapers.Home.{build_home_sections, collection_items}
use backend_live_canvas.Wallpapers.Pagination.{
  Texts, Paginator, Envelope, paginate_queryset, get_paginated_response,
}
use backend_live_canvas.Wallpapers.Serializers.{
  CategoryPayload, WallpaperPayload, CollectionPayload, CollectionDetail, SectionPayload,
  category_payload, wallpaper_in_list, wallpaper_detail, collection_payload, section_payload,
}

-- `HomeView.get`
unfoldable pub get_home : List Tag → Db → List SectionPayload
unfolding build_home_sections section_payload
get_home tags db = map (section_payload tags db) (build_home_sections db)

-- `CategoryListView.get`
unfoldable pub get_categories : List Category → Db → List CategoryPayload
unfolding category_payload
get_categories categories db = map (category_payload db) categories

-- `TagListView.get`
unfoldable pub get_tags : List Tag → Db → List TagPayload
unfolding build_tags_payload
get_tags tags db = build_tags_payload tags db

-- `CollectionListView.get`; `collections` is the table, newest first.
unfoldable pub get_collections : List Collection → Db → List CollectionPayload
unfolding collection_payload
get_collections collections db = map (collection_payload db) collections

-- `get_collection_or_404`
unfoldable pub get_collection_or_404 : ℕ → Db → Result Collection
get_collection_or_404 i db = elim (first (λ c. c.id == i) db.collections) [
  | none ↦ err (Exc.http404 "Collection not found.")
  | some c ↦ ok c
]

-- `CollectionDetailView.get`
unfoldable pub get_collection : List Tag → ℕ → Db → Result CollectionDetail
unfolding get_collection_or_404 collection_payload wallpaper_detail
get_collection tags i db = then_result (get_collection_or_404 i db) (λ c. ok (record {
  meta = collection_payload db c;
  items = map (wallpaper_detail tags db) (collection_items c db);
}))

-- `WallpaperListView.get`; the framework reads `limit` and `cursor` from the same query.
unfoldable pub get_wallpapers :
    Host
    → Texts
    → Paginator Wallpaper
    → List Tag
    → Params
    → Option String
    → Option String
    → Db
    → Result (Envelope WallpaperPayload)
unfolding build_wallpaper_queryset paginate_queryset get_paginated_response wallpaper_in_list
get_wallpapers host t p tags params limit cursor db =
    then_result (build_wallpaper_queryset host params db) (λ rows.
      then_result (paginate_queryset t p limit cursor rows)
        (λ page. ok (get_paginated_response t (map (wallpaper_in_list tags db) page.0) page.1)))

-- `WallpaperDetailView.get`
unfoldable pub get_wallpaper : List Tag → ℕ → Db → Result WallpaperPayload
unfolding get_published_or_404 wallpaper_detail
get_wallpaper tags i db =
    then_result (get_published_or_404 i db) (λ w. ok (wallpaper_detail tags db w))

-- `WallpaperBatchView.post`; `complaint` is the framework's on a list of another length.
unfoldable pub post_batch : Detail → List Tag → List ℕ → Db → Result (List WallpaperPayload)
unfolding batch_wallpapers wallpaper_in_list
post_batch complaint tags ids db =
    if leb 1 (length ids) && leb (length ids) 100
    then ok (map (wallpaper_in_list tags db) (batch_wallpapers ids db))
    else err (Exc.validation_error complaint)

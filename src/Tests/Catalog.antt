-- ===== src/Tests/Catalog.antt =====
-- A catalog with one wallpaper, tag and collection, and runs of apps/wallpapers on it.
use backend_live_canvas.Prelude.{
  ◌≡◌, refl, true, false, none, some, [], ◌∷◌, select, first, exists, every, update, str_eq,
}
use backend_live_canvas.Core.Exec.{ok, Outcome}
use backend_live_canvas.Uploads.Models.{UploadSlot, UploadPurpose}
use backend_live_canvas.Uploads.Storage.{Settings, Presigned, presign_download}
use backend_live_canvas.Iap.Models.{IapDb}
use backend_live_canvas.Wallpapers.Models.{
  Orientation, WallpaperStatus, Wallpaper, Collection, Db, is_published,
}
use backend_live_canvas.Core.Text.{strip, lstrip, rstrip}
use backend_live_canvas.Wallpapers.Queries.{
  Params, Host, is_newer, text_of, orientation_result, parse_bool, build_wallpaper_queryset,
  get_published_or_404,
}
use backend_live_canvas.Wallpapers.Queries.Filtered.{
  accepts, fault, then_verdict, build_wallpaper_queryset-accepts,
}
use backend_live_canvas.Wallpapers.Home.{order_by, build_home_sections}
use backend_live_canvas.Wallpapers.Home.Sections.{IsScreen, build_home_sections-IsScreen}
use backend_live_canvas.Wallpapers.Download.{build_download_url, get_download_url}
use backend_live_canvas.Wallpapers.Download.Link.{IsAllowed, get_download_url-IsAllowed}
use backend_live_canvas.Wallpapers.Admin.{is_used, soft_delete_wallpaper, delete_tag}
use backend_live_canvas.Wallpapers.Curation.{is_wallpaper, update_collection, CollectionPatch}
use backend_live_canvas.Wallpapers.Curation.Collections.{Shows, update_collection-Shows}
use backend_live_canvas.Wallpapers.Admin.Removal.{IsTagOf, HasKnownTags, delete_tag-HasKnownTags}

abbrev pub sea : Wallpaper
sea = record {
  id = 1;
  title = "Sea";
  description = none;
  category = 1;
  tags = 1 ∷ [];
  orientation = Orientation.portrait;
  thumbnail_url = none;
  preview_video_url = none;
  resolution = none;
  duration_seconds = none;
  file_size_bytes = none;
  is_premium = false;
  download_count = 0;
  like_count = 0;
  source_url = "https://example.org/sea";
  license_type = "CC0";
  master_key = some "masters/sea.mp4";
  staging_key = none;
  thumbnail_key = none;
  preview_key = none;
  failure_reason = none;
  status = WallpaperStatus.published;
  deleted_at = none;
  created_at = 10;
}

abbrev pub calm : Collection
calm = record {
  id = 1;
  slug = "calm";
  title = "Calm";
  author = "";
  description = "";
  cover_url = "";
  accent_color = none;
  is_premium = false;
  created_at = 10;
  show_on_home = true;
  home_position = 0;
}

abbrev pub staged_slot : UploadSlot
staged_slot = record {
  id = 1;
  key = "staging/a.mp4";
  purpose = UploadPurpose.video;
  content_type = "video/mp4";
  created_by = 1;
  created_at = 10;
  consumed_at = none;
}

abbrev pub catalog : Db
catalog = record {
  categories =
      record { id = 1; slug = "nature"; name = "Nature"; icon_url = ""; created_at = 1 } ∷ [];
  tags =
      record { id = 1; slug = "sea"; name = "Sea"; created_at = 1 }
      ∷ record { id = 2; slug = "sky"; name = "Sky"; created_at = 1 }
      ∷ [];
  wallpapers = sea ∷ [];
  collections = calm ∷ [];
  items = record { collection = 1; wallpaper = 1; position = 0 } ∷ [];
  slots = staged_slot ∷ [];
  next_category = 2;
  next_tag = 3;
  next_wallpaper = 2;
  next_collection = 2;
  next_slot = 2;
  queue = [];
  audit_log = [];
}

abbrev pub no_purchases : IapDb
no_purchases = record {
  entitlements = [];
  next_id = 1;
  transactions = [];
  notifications = [];
  audit_log = [];
}

abbrev pub limits : Settings
limits = record {
  private_bucket = "private";
  public_bucket = "public";
  cdn_base_url = "https://cdn.example.org/";
  upload_ttl = 900;
  download_ttl = 300;
  upload_max_bytes = 524288000;
}

abbrev pub plain_host : Host
plain_host = record { repr = λ s. s; icontains = λ title term. str_eq title term }

abbrev pub two_tags : Params
two_tags = record {
  category = some "nature";
  tags = some "sea, sky,all";
  orientation = none;
  is_premium = some " False ";
  search = none;
}

build_wallpaper_queryset-accepts_example :
    build_wallpaper_queryset plain_host two_tags catalog
    ≡ then_verdict
        (fault two_tags.orientation (orientation_result plain_host (text_of none)))
        (fault two_tags.is_premium (parse_bool plain_host (text_of (some " False ")) "is_premium"))
        (order_by is_newer (select (accepts plain_host two_tags catalog) catalog.wallpapers))
build_wallpaper_queryset-accepts_example =
    build_wallpaper_queryset-accepts plain_host two_tags catalog

build_home_sections-IsScreen_example : IsScreen catalog (build_home_sections catalog)
build_home_sections-IsScreen_example = build_home_sections-IsScreen catalog

abbrev sea_link : Presigned
sea_link = presign_download limits 1000 "masters/sea.mp4" none

sea_found : get_download_url limits 1000 1 none catalog no_purchases ≡ ok sea_link
unfolding get_download_url get_published_or_404 build_download_url first is_published str_eq strip
    lstrip rstrip
sea_found = refl

get_download_url-IsAllowed_example : IsAllowed limits 1000 1 none catalog no_purchases sea_link
get_download_url-IsAllowed_example =
    get_download_url-IsAllowed limits 1000 1 none catalog no_purchases sea_found

abbrev empty_patch : CollectionPatch
empty_patch = record {
  slug = none;
  title = none;
  author = none;
  description = none;
  cover_url = none;
  accent_color = none;
  is_premium = none;
  show_on_home = none;
  home_position = none;
}

update_collection-Shows_example :
    Outcome
      (λ c db'.
        (c.id ≡ 1) × (every (is_wallpaper catalog) (1 ∷ []) ≡ true) × Shows c (1 ∷ []) catalog db')
      (λ e db'. db' ≡ catalog)
      (update_collection 1 (some (1 ∷ [])) empty_patch catalog)
update_collection-Shows_example = update_collection-Shows 1 (1 ∷ []) empty_patch catalog

abbrev without_sea : Db
without_sea = record catalog { wallpapers = record sea { deleted_at = some 1000 } ∷ [] }

sea_deleted :
    soft_delete_wallpaper 1000 1 catalog ≡ (ok (record sea { deleted_at = some 1000 }), without_sea)
unfolding soft_delete_wallpaper first update
sea_deleted = refl

catalog-HasKnownTags : HasKnownTags catalog
unfolding exists
catalog-HasKnownTags = ((refl, tt), tt)

delete_tag-HasKnownTags_example :
    Outcome
      (λ tag db'.
        (tag.id ≡ 2) × (is_used 2 catalog ≡ false) × HasKnownTags db' × ¬ IsTagOf db'.tags 2)
      (λ e db'. db' ≡ catalog)
      (delete_tag 2 catalog)
delete_tag-HasKnownTags_example = delete_tag-HasKnownTags 2 catalog catalog-HasKnownTags

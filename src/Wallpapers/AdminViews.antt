-- ===== src/Wallpapers/AdminViews.antt =====
-- apps/wallpapers/admin_serializers.py and admin_views.py: the endpoints of the admin tier, with the
-- audit entry that each writes. What a serializer of the framework checks of one field's shape is
-- not modelled.
pub mod Register
pub mod Listings
pub mod Listed
use backend_live_canvas.Prelude.{
  ℕ, suc, String, Bool, true, false, not, Option, none, some, List, [], ◌∷◌, ◌++◌, concat, length,
  select, exists, every, ◌==◌, truthy, if◌then◌else◌,
}
use backend_live_canvas.Core.Errors.{Exc, AppErrorClass, Detail, Details, Fields}
use backend_live_canvas.Core.Exec.{
  Result, ok, err, Exec, guard, modify, pure, lift, gets, atomic, ◌>>=◌, ◌>>◌,
}
use backend_live_canvas.Audit.{Actor, Subject, Members, text, number, member, end}
use backend_live_canvas.Uploads.Models.{UploadSlot, video, image}
use backend_live_canvas.Uploads.Storage.{Settings}
use backend_live_canvas.Uploads.Services.{
  consume_slot, check_staged_object, start_processing, audit,
}
use backend_live_canvas.Wallpapers.Models.{
  Orientation, WallpaperStatus, processing, Tag, Wallpaper, Collection, Db, status_eq,
}
use backend_live_canvas.Core.Text.{strip}
use backend_live_canvas.Wallpapers.Admin.{
  soft_delete_wallpaper, update_wallpaper_description, create_tag, delete_tag, sorted_set,
  list_text,
}
use backend_live_canvas.Wallpapers.Curation.{
  create_collection, update_collection, delete_collection, CollectionFields, CollectionPatch,
}

-- `_normalize_description`
unfoldable pub normalize_description : Option String → Option String
unfolding strip
normalize_description none = none
normalize_description (some value) =
    let stripped = strip value in if truthy stripped then some stripped else none

-- The body of POST /admin/wallpapers.
pub record CreateRequest : Type 0 where
  pub title : String
  pub description : Option String
  pub category_id : ℕ
  pub tag_ids : List ℕ
  pub orientation : Orientation
  pub is_premium : Bool
  pub source_url : String
  pub license_type : String
  pub upload_key : String

abbrev pub is_category : ℕ → Db → Bool
is_category i db = exists (λ c. c.id == i) db.categories

abbrev pub is_tag : Db → ℕ → Bool
is_tag db i = exists (λ t. t.id == i) db.tags

-- `validate_category_id`
unfoldable pub validate_category_id : ℕ → Exec Db (Unit {0})
validate_category_id i db =
    guard (is_category i db)
      (Exc.validation_error (
        Detail.dict (
          Fields.field "category_id"
            (Detail.items (Details.cons (Detail.text "Unknown category_id.") Details.nil))
            Fields.end)))
      db

-- `validate_tag_ids`
unfoldable pub validate_tag_ids : List ℕ → Exec Db (Unit {0})
unfolding sorted_set
validate_tag_ids ids db =
    guard (every (is_tag db) ids)
      (Exc.app AppErrorClass.tag_not_found (
        concat "Unknown tag ids: "
          (concat (list_text (sorted_set (select (λ i. not (is_tag db i)) ids))) ".")))
      db

abbrev about : String → ℕ → Option Subject
about model i = some (record { model_name = model; pk = some i })

-- The row that registration creates.
abbrev pub registered_row : ℕ → CreateRequest → UploadSlot → Db → Wallpaper
registered_row now r slot db = record {
  id = db.next_wallpaper;
  title = r.title;
  description = normalize_description r.description;
  category = r.category_id;
  tags = sorted_set r.tag_ids;
  orientation = r.orientation;
  thumbnail_url = none;
  preview_video_url = none;
  resolution = none;
  duration_seconds = none;
  file_size_bytes = none;
  is_premium = r.is_premium;
  download_count = 0;
  like_count = 0;
  source_url = r.source_url;
  license_type = r.license_type;
  master_key = none;
  staging_key = some slot.key;
  thumbnail_key = none;
  preview_key = none;
  failure_reason = none;
  status = processing;
  deleted_at = none;
  created_at = now;
}

abbrev pub insert_wallpaper : Wallpaper → Db → Db
insert_wallpaper w db = record db {
  wallpapers = db.wallpapers ++ w ∷ [];
  next_wallpaper = suc db.next_wallpaper;
}

abbrev create_row : ℕ → CreateRequest → UploadSlot → Exec Db Wallpaper
create_row now r slot db =
    (ok (registered_row now r slot db), insert_wallpaper (registered_row now r slot db) db)

-- The transaction of `AdminWallpaperListCreateView.post`.
abbrev pub register_body : ℕ → Actor → CreateRequest → Exec Db Wallpaper
register_body now actor r = do
  slot ← consume_slot now r.upload_key video
  w ← create_row now r slot
  audit now (some actor) "upload.register" (about "wallpaper" w.id) ""
      (member "upload_key" (text slot.key) end)
  audit now (some actor) "wallpaper.create" (about "wallpaper" w.id) ""
      (member "title" (text w.title) end)
  pure w

-- `AdminWallpaperListCreateView.post`. The framework collects the error of the category and goes on
-- to the tags, whose error leaves the serializer at once. `head` is what the storage answers for the staged object,
-- and `broker` what the broker answers to the task, which is sent behind the commit.
unfoldable pub register :
    Settings → Result (Option ℕ) → Result (Unit {0}) → ℕ → Actor → CreateRequest → Exec Db Wallpaper
unfolding validate_category_id validate_tag_ids check_staged_object
register s head broker now actor r = do
  validate_tag_ids r.tag_ids
  validate_category_id r.category_id
  lift (check_staged_object s head)
  w ← atomic (register_body now actor r)
  start_processing broker w.id
  pure w

-- `AdminWallpaperDetailView.patch`
unfoldable pub patch_wallpaper : ℕ → Actor → ℕ → Option String → Exec Db Wallpaper
unfolding update_wallpaper_description normalize_description
patch_wallpaper now actor i description = atomic (do
  w ← update_wallpaper_description i (normalize_description description)
  audit now (some actor) "wallpaper.update" (about "wallpaper" w.id) ""
      (member "field" (text "description") end)
  pure w)

-- `AdminWallpaperDetailView.delete`: two writes, in no transaction.
unfoldable pub delete_wallpaper : ℕ → Actor → ℕ → Exec Db (Unit {0})
unfolding soft_delete_wallpaper
delete_wallpaper now actor i = do
  w ← soft_delete_wallpaper now i
  audit now (some actor) "wallpaper.delete" (about "wallpaper" w.id) ""
      (member "title" (text w.title) end)

-- `AdminTagListCreateView.post`
unfoldable pub post_tag : ℕ → Actor → String → String → Exec Db Tag
unfolding create_tag
post_tag now actor slug name = atomic (do
  t ← create_tag now slug name
  audit now (some actor) "tag.create" (about "tag" t.id) "" (member "slug" (text t.slug) end)
  pure t)

-- `AdminTagDetailView.delete`
unfoldable pub remove_tag : ℕ → Actor → ℕ → Exec Db (Unit {0})
unfolding delete_tag
remove_tag now actor i = atomic (do
  t ← delete_tag i
  audit now (some actor) "tag.delete" none "" (member "slug" (text t.slug) end))

-- The claim of a cover's slot, which `_resolve_cover` makes in a transaction of its own.
abbrev claim_cover : ℕ → String → Exec Db UploadSlot
claim_cover now key = atomic (consume_slot now key image)

-- `_resolve_cover`: the address of the cover where a key is given; `ingest` is
-- `ingest_cover_image`, seen from the database.
unfoldable pub resolve_cover :
    (String → Result String) → ℕ → Option String → Exec Db (Option String)
resolve_cover ingest now none db = (ok none, db)
resolve_cover ingest now (some key) db = elim (truthy key) [
  | false ↦ (ok none, db)
  | true ↦ (do claim_cover now key; url ← lift (ingest key); pure (some url)) db
]

abbrev url_or : Option String → String → String
url_or none u = u
url_or (some v) u = v

-- `AdminCollectionListCreateView.post`
unfoldable pub post_collection :
    (String → Result String)
    → ℕ
    → Actor
    → Option String
    → List ℕ
    → CollectionFields
    → Exec Db Collection
unfolding resolve_cover create_collection
post_collection ingest now actor cover ids f = do
  url ← resolve_cover ingest now cover
  atomic (do
    c ← create_collection now ids (record f { cover_url = url_or url f.cover_url })
    audit now (some actor) "collection.create" (about "collection" c.id) ""
        (member "slug" (text c.slug) (member "item_count" (number (length ids)) end))
    pure c)

abbrev url_patch : Option String → Option String → Option String
url_patch none u = u
url_patch (some v) u = some v

-- `AdminCollectionDetailView.patch`
unfoldable pub patch_collection :
    (String → Result String)
    → ℕ
    → Actor
    → ℕ
    → Option String
    → Option (List ℕ)
    → CollectionPatch
    → Exec Db Collection
unfolding resolve_cover update_collection
patch_collection ingest now actor i cover ids p = do
  url ← resolve_cover ingest now cover
  atomic (do
    c ← update_collection i ids (record p { cover_url = url_patch url p.cover_url })
    audit now (some actor) "collection.update" (about "collection" c.id) ""
        (member "slug" (text c.slug) end)
    pure c)

-- `AdminCollectionDetailView.delete`
unfoldable pub remove_collection : ℕ → Actor → ℕ → Exec Db (Unit {0})
unfolding delete_collection
remove_collection now actor i = atomic (do
  c ← delete_collection i
  audit now (some actor) "collection.delete" none "" (member "slug" (text c.slug) end))

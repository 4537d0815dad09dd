-- ===== src/Wallpapers/Models.antt =====
-- apps/wallpapers/models.py: the rows of the catalog. A table is the list of its rows in the order
-- of their primary keys, and the database of the content apps is one record.
use backend_live_canvas.Prelude.{
  ℕ, String, Bool, true, false, ◌&&◌, not, Option, List, is_some, str_eq,
}
use backend_live_canvas.Audit.{AuditLogEntry}
use backend_live_canvas.Uploads.Models.{UploadSlot}

-- `Orientation`
pub data Orientation : Type 0 where
  portrait landscape square : Orientation

-- `WallpaperStatus`
pub data WallpaperStatus : Type 0 where
  processing published failed : WallpaperStatus

abbrev pub status_eq : WallpaperStatus → WallpaperStatus → Bool
status_eq processing processing = true
status_eq published published = true
status_eq failed failed = true
status_eq _ _ = false

abbrev pub orientation_eq : Orientation → Orientation → Bool
orientation_eq portrait portrait = true
orientation_eq landscape landscape = true
orientation_eq square square = true
orientation_eq _ _ = false

-- `RESERVED_TAG_SLUGS`, as a test.
abbrev pub is_reserved_slug : String → Bool
is_reserved_slug slug = str_eq slug "all"

-- `Category`
pub record Category : Type 0 where
  pub id : ℕ
  pub slug : String
  pub name : String
  pub icon_url : String
  pub created_at : ℕ

-- `Tag`
pub record Tag : Type 0 where
  pub id : ℕ
  pub slug : String
  pub name : String
  pub created_at : ℕ

-- `Wallpaper`; `category` is a foreign key and `tags` are the primary keys of its tags. The
-- duration is kept as a number of hundredths of a second.
pub record Wallpaper : Type 0 where
  pub id : ℕ
  pub title : String
  pub description : Option String
  pub category : ℕ
  pub tags : List ℕ
  pub orientation : Orientation
  pub thumbnail_url : Option String
  pub preview_video_url : Option String
  pub resolution : Option String
  pub duration_seconds : Option ℕ
  pub file_size_bytes : Option ℕ
  pub is_premium : Bool
  pub download_count : ℕ
  pub like_count : ℕ
  pub source_url : String
  pub license_type : String
  pub master_key : Option String
  pub staging_key : Option String
  pub thumbnail_key : Option String
  pub preview_key : Option String
  pub failure_reason : Option String
  pub status : WallpaperStatus
  pub deleted_at : Option ℕ
  pub created_at : ℕ

-- `Collection`
pub record Collection : Type 0 where
  pub id : ℕ
  pub slug : String
  pub title : String
  pub author : String
  pub description : String
  pub cover_url : String
  pub accent_color : Option String
  pub is_premium : Bool
  pub created_at : ℕ
  pub show_on_home : Bool
  pub home_position : ℕ

-- `CollectionItem`: both foreign keys and the position. Its own primary key, which no column and no
-- response refers to, is not modelled: an item is known by its place in the table, which is the
-- order in which the items were created, and a rebuilt list of items stands at the end under new
-- keys, which the model does not show.
pub record CollectionItem : Type 0 where
  pub collection : ℕ
  pub wallpaper : ℕ
  pub position : ℕ

-- The test of `WallpaperQuerySet.published`.
unfoldable pub is_published : Wallpaper → Bool
is_published w = status_eq w.status published && not (is_some w.deleted_at)

-- The tables, the next primary keys, the tasks that were sent to the worker, and the audit trail.
pub record Db : Type 0 where
  pub categories : List Category
  pub tags : List Tag
  pub wallpapers : List Wallpaper
  pub collections : List Collection
  pub items : List CollectionItem
  pub slots : List UploadSlot
  pub next_category : ℕ
  pub next_tag : ℕ
  pub next_wallpaper : ℕ
  pub next_collection : ℕ
  pub next_slot : ℕ
  pub queue : List ℕ
  pub audit_log : List AuditLogEntry

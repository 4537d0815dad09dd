-- ===== src/Uploads/Pipeline.antt =====
-- apps/uploads/tasks.py: the task that carries a wallpaper from `processing` to `published` or
-- `failed`. What the storage client, libmagic and ffmpeg answer in one run is the record `Media`.
pub mod Rows
pub mod Outcome
pub mod Retries
pub mod Delivery
pub mod Redelivery
use backend_live_canvas.Prelude.{
  ℕ, ◌+◌, ◌^◌, String, Bool, true, false, not, Option, none, some, List, [], ◌∷◌, ◌++◌, ltb, leb,
  ◌==◌, str_eq, truthy, first, select, update, ◌||◌, ◌&&◌, concat, decimal, take_text,
  if◌then◌else◌,
}
use backend_live_canvas.Uploads.Models.{
  Zone, private, public, new_key, masters_prefix, thumbs_prefix, previews_prefix,
}
use backend_live_canvas.Uploads.Storage.{Settings, public_url}
use backend_live_canvas.Uploads.Attempt.{
  Attempt, done, rejected, tool_failed, interrupted, Objects, Steps, pure, answer, check, ◌>>=◌,
  ◌>>◌,
}
use backend_live_canvas.Wallpapers.Models.{Wallpaper, WallpaperStatus, Db}

-- What `ffmpeg.probe` returns; the duration is in millionths of a second.
pub record Meta : Type 0 where
  pub width : ℕ
  pub height : ℕ
  pub duration : ℕ

-- The answers of one run.
pub record Media : Type 0 where
  pub head_size : String → Attempt (Option ℕ)
  pub sniff : String → Attempt String
  pub download_file : String → Attempt (Unit {0})
  pub probe : Attempt Meta
  pub normalize_master : Attempt (Unit {0})
  pub extract_thumbnail : Attempt (Unit {0})
  pub render_preview : Attempt (Unit {0})
  pub upload_file : String → Attempt (Unit {0})
  pub master_size : ℕ
  pub master_uuid : String
  pub thumb_uuid : String
  pub preview_uuid : String
  -- whether the deletion of the staging object succeeds
  pub deletes : Bool
  -- `round(duration, 2)`, in hundredths
  pub round2 : ℕ → ℕ

-- `ACCEPTED_VIDEO_MIMES`, as a test.
abbrev pub is_accepted_video : String → Bool
is_accepted_video mime = str_eq mime "video/mp4" || str_eq mime "video/quicktime"

-- `_sniff_video`
unfoldable pub sniff_video : Media → String → Steps (Unit {0})
sniff_video m key = do
  mime ← answer (m.sniff key)
  check (is_accepted_video mime) (concat "not an accepted video (sniffed " (concat mime ")"))

abbrev too_large : ℕ → ℕ → String
too_large size limit = concat "file is " (
    concat (decimal size) (concat " bytes — exceeds the " (concat (decimal limit) " byte ceiling")))

abbrev within : Settings → Option ℕ → Steps (Unit {0})
within s none = answer (rejected "staged object is missing")
within s (some size) = check (leb size s.upload_max_bytes) (too_large size s.upload_max_bytes)

-- `_size_guard`
unfoldable pub size_guard : Settings → Media → String → Steps (Unit {0})
size_guard s m key = do size ← answer (m.head_size key); within s size

-- A successful upload adds the object.
unfoldable pub upload : Media → Zone → String → Steps (Unit {0})
upload m zone key = do answer (m.upload_file key); λ objects. (done tt, objects ++ (zone, key) ∷ [])

-- What the `try` block hands to the final write.
pub record Artifacts : Type 0 where
  pub meta : Meta
  pub master_key : String
  pub thumb_key : String
  pub preview_key : String
  pub master_size : ℕ

-- The `try` block.
unfoldable pub make_artifacts : Settings → Media → String → Steps Artifacts
unfolding size_guard sniff_video upload
make_artifacts s m staging = do
  size_guard s m staging
  sniff_video m staging
  answer (m.download_file staging)
  meta ← answer m.probe
  answer m.normalize_master
  answer m.extract_thumbnail
  answer m.render_preview
  let master_key = new_key m.master_uuid masters_prefix "mp4"
  let thumb_key = new_key m.thumb_uuid thumbs_prefix "jpg"
  let preview_key = new_key m.preview_uuid previews_prefix "mp4"
  upload m private master_key
  upload m public thumb_key
  upload m public preview_key
  pure (record {
    meta = meta;
    master_key = master_key;
    thumb_key = thumb_key;
    preview_key = preview_key;
    master_size = m.master_size;
  })

-- The database and the storage.
pub record World : Type 0 where
  pub db : Db
  pub objects : Objects

-- What the task returns, or the retry that it asks for with its countdown.
pub data TaskOutcome : Type 0 where
  missing already_processed failed published : TaskOutcome
  retry : ℕ → TaskOutcome

abbrev pub wallpaper_by_id : ℕ → List Wallpaper → Option Wallpaper
wallpaper_by_id i = first (λ w. w.id == i)

-- `wallpaper.save()`
unfoldable pub save_wallpaper : Wallpaper → Db → Db
save_wallpaper w db = record db { wallpapers = update (λ v. v.id == w.id) (λ _. w) db.wallpapers }

-- The row that `_fail` saves.
unfoldable pub failed_row : String → Wallpaper → Wallpaper
failed_row reason w = record w {
  status = WallpaperStatus.failed;
  failure_reason = some (take_text 2000 reason);
}

-- `_fail`
unfoldable pub fail : String → Wallpaper → World → TaskOutcome × World
unfolding failed_row save_wallpaper
fail reason w world =
    (TaskOutcome.failed, record world { db = save_wallpaper (failed_row reason w) world.db })

-- The row of the final write.
unfoldable pub published_row : Settings → Media → Artifacts → Wallpaper → Wallpaper
unfolding public_url
published_row s m a w = record w {
  master_key = some a.master_key;
  thumbnail_key = some a.thumb_key;
  preview_key = some a.preview_key;
  thumbnail_url = some (public_url s a.thumb_key);
  preview_video_url = some (public_url s a.preview_key);
  resolution = some (concat (decimal a.meta.width) (concat "x" (decimal a.meta.height)));
  duration_seconds = some (m.round2 a.meta.duration);
  file_size_bytes = some a.master_size;
  failure_reason = none;
  status = WallpaperStatus.published;
  staging_key = none;
}

abbrev is_object : Zone → String → Zone × String → Bool
is_object private key (private, k) = str_eq k key
is_object public key (public, k) = str_eq k key
is_object _ key _ = false

-- `storage.delete_object`, where it succeeds.
unfoldable pub delete_object : Zone → String → Objects → Objects
delete_object zone key = select (λ o. not (is_object zone key o))

-- The final write and the cleanup.
unfoldable pub publish :
    Settings → Media → String → Artifacts → Wallpaper → World → TaskOutcome × World
unfolding published_row save_wallpaper delete_object
publish s m staging a w world = (
  TaskOutcome.published,
  record {
    db = save_wallpaper (published_row s m a w) world.db;
    objects = if m.deletes then delete_object private staging world.objects else world.objects;
  },
)

abbrev pub max_retries : ℕ
max_retries = 3

-- The `except` clauses, and the code behind the `try`.
unfoldable pub conclude :
    Settings → Media → ℕ → String → Wallpaper → Attempt Artifacts → World → TaskOutcome × World
conclude s m retries staging w (done a) world = publish s m staging a w world
conclude s m retries staging w (rejected reason) world = fail reason w world
conclude s m retries staging w (tool_failed reason) world = fail reason w world
conclude s m retries staging w (interrupted reason) world =
    if leb max_retries retries
    then fail (concat "pipeline error after retries: " reason) w world
    else (TaskOutcome.retry (2 ^ retries), world)

abbrev pub text_of : Option String → String
text_of none = ""
text_of (some k) = k

-- The task on a row that is there.
unfoldable pub process_row : Settings → Media → ℕ → Wallpaper → World → TaskOutcome × World
process_row s m retries w world =
    let staging = text_of w.staging_key in
    if truthy (text_of w.master_key)
    then (TaskOutcome.already_processed, world)
    else if truthy staging
    then (let (r, objects) = make_artifacts s m staging world.objects in
        conclude s m retries staging w r (record world { objects = objects }))
    else fail "no staging object recorded" w world

-- `process_wallpaper`, in its attempt number `retries`.
unfoldable pub process_wallpaper : Settings → Media → ℕ → ℕ → World → TaskOutcome × World
process_wallpaper s m retries wallpaper_id world =
    elim (wallpaper_by_id wallpaper_id world.db.wallpapers) [
      | none ↦ (TaskOutcome.missing, world)
      | some w ↦ process_row s m retries w world
    ]

-- ===== src/Uploads/Services.antt =====
-- apps/uploads/services.py and apps/uploads/views.py: the slots of presigned uploads, and the
-- hand-over to the pipeline.
pub mod Slots
use backend_live_canvas.Prelude.{
  ℕ, ◌+◌, ◌*◌, ◌/◌, String, Bool, true, false, ◌||◌, not, Option, none, some, List, [], ◌∷◌, ◌++◌,
  concat, decimal, first, update, select, ltb, ◌==◌, str_eq, is_some, if◌then◌else◌,
}
use backend_live_canvas.Core.Errors.{Exc, AppErrorClass}
use backend_live_canvas.Core.Exec.{
  Result, ok, err, Exec, guard, modify, pure, lift, gets, ◌>>=◌, ◌>>◌,
}
use backend_live_canvas.Audit.{
  AuditLogEntry, Actor, Subject, Members, text, member, end, record_action,
}
use backend_live_canvas.Uploads.Models.{
  UploadPurpose, video, image, purpose_eq, UploadSlot, private, public, new_key, staging_prefix,
  covers_prefix,
}
use backend_live_canvas.Uploads.Storage.{Settings, Presigned, presign_upload, public_url}
use backend_live_canvas.Uploads.Attempt.{Objects}
use backend_live_canvas.Uploads.Pipeline.{delete_object}
use backend_live_canvas.Wallpapers.Models.{Db}

abbrev pub refused : AppErrorClass → String → Exc
refused c detail = Exc.app c detail

abbrev pub unknown_key : Exc
unknown_key = refused AppErrorClass.validation_failed "Unknown upload_key."

abbrev pub registered : Exc
registered = refused AppErrorClass.validation_failed "This upload has already been registered."

abbrev pub other_purpose : Exc
other_purpose =
    refused AppErrorClass.validation_failed "This upload was presigned for a different purpose."

abbrev pub slot_by_key : String → List UploadSlot → Option UploadSlot
slot_by_key key = first (λ s. str_eq s.key key)

abbrev pub consumed : ℕ → UploadSlot → UploadSlot
consumed now slot = record slot { consumed_at = some now }

-- The slots after the slot is saved: its primary key is unique.
abbrev pub save_slot : UploadSlot → Db → Db
save_slot slot db = record db { slots = update (λ s. s.id == slot.id) (λ _. slot) db.slots }

abbrev pub claim : ℕ → UploadPurpose → UploadSlot → Exec Db UploadSlot
claim now expected slot = do
  guard (not (is_some slot.consumed_at)) registered
  guard (purpose_eq slot.purpose expected) other_purpose
  modify (save_slot (consumed now slot))
  pure (consumed now slot)

-- `consume_slot`, at the time `now`.
unfoldable pub consume_slot : ℕ → String → UploadPurpose → Exec Db UploadSlot
consume_slot now key expected db = elim (slot_by_key key db.slots) [
  | none ↦ (err unknown_key, db)
  | some slot ↦ claim now expected slot db
]

-- `check_staged_object`; `head_size` is the answer of the storage, `none` for a missing object.
unfoldable pub check_staged_object : Settings → Result (Option ℕ) → Result ℕ
check_staged_object s (err e) = err e
check_staged_object s (ok none) =
    err (refused AppErrorClass.validation_failed "No uploaded object found for this upload_key.")
check_staged_object s (ok (some size)) =
    if ltb s.upload_max_bytes size
    then err (
        refused AppErrorClass.file_rejected (
          concat "File exceeds the "
            (concat (decimal (s.upload_max_bytes / (1024 * 1024))) " MB size ceiling.")))
    else ok size

-- `start_processing`, as it takes effect when the transaction has committed: `broker` is the broker's
-- answer to the task. One that is refused raises, and what was committed stays.
unfoldable pub start_processing : Result (Unit {0}) → ℕ → Exec Db (Unit {0})
start_processing (ok _) i db = (ok tt, record db { queue = db.queue ++ i ∷ [] })
start_processing (err e) i db = (err e, db)

abbrev with_log : Result (Unit {0}) × List AuditLogEntry → Db → Result (Unit {0}) × Db
with_log (r, log) db = (r, record db { audit_log = log })

-- `audit.record` on the trail of this database.
abbrev pub audit :
    ℕ → Option Actor → String → Option Subject → String → Members → Exec Db (Unit {0})
audit now actor action obj label metadata db =
    with_log (record_action now actor action obj label metadata db.audit_log) db

-- The extension of an accepted image.
abbrev pub image_ext : String → Option String
image_ext mime =
    if str_eq mime "image/jpeg"
    then some "jpg"
    else if str_eq mime "image/png"
    then some "png"
    else if str_eq mime "image/webp"
    then some "webp"
    else none

-- What the storage and libmagic answer while a cover is ingested.
pub record CoverAnswers : Type 0 where
  pub mime : Result String
  pub copied : Result (Unit {0})
  pub deleted : Result (Unit {0})
  pub uuid : String

abbrev moved : Settings → CoverAnswers → String → String → Exec Objects String
moved s a key cover_key objects = elim a.copied [
  | err e ↦ (err e, objects)
  | ok u ↦
      let copied = objects ++ (public, cover_key) ∷ [] in
      elim a.deleted [
        | err e ↦ (err e, copied)
        | ok v ↦ (ok (public_url s cover_key), delete_object private key copied)
      ]
]

abbrev ingest : Settings → CoverAnswers → String → String → Exec Objects String
ingest s a key mime objects = elim (image_ext mime) [
  | none ↦
      (err (refused AppErrorClass.file_rejected "Cover upload is not a supported image."), objects)
  | some ext ↦ moved s a key (new_key a.uuid covers_prefix ext) objects
]

-- `ingest_cover_image`
unfoldable pub ingest_cover_image : Settings → CoverAnswers → String → Exec Objects String
unfolding delete_object public_url
ingest_cover_image s a key = do mime ← lift a.mime; ingest s a key mime

-- The checked body of POST /admin/uploads/presign, with the extension of the file name.
pub record PresignRequest : Type 0 where
  pub extension : String
  pub content_type : String

-- `VIDEO_CONTENT_TYPES`, as a test.
abbrev pub is_video_type : String → Bool
is_video_type t = str_eq t "video/mp4" || str_eq t "video/quicktime"

abbrev pub purpose_of : String → UploadPurpose
purpose_of t = if is_video_type t then video else image

abbrev pub create_slot : ℕ → ℕ → String → String → Db → Db
create_slot now user key content_type db = record db {
  slots =
      db.slots
      ++ record {
        id = db.next_slot;
        key = key;
        purpose = purpose_of content_type;
        content_type = content_type;
        created_by = user;
        created_at = now;
        consumed_at = none;
      }
        ∷ [];
  next_slot = db.next_slot + 1;
}

-- `PresignView.post`, by the user with the primary key `user`.
unfoldable pub presign : Settings → ℕ → ℕ → Actor → String → PresignRequest → Exec Db Presigned
unfolding presign_upload
presign s now user actor uuid request = do
  let key = new_key uuid staging_prefix request.extension
  modify (create_slot now user key request.content_type)
  audit now (some actor) "upload.presign" none ""
      (member "upload_key" (text key) (member "content_type" (text request.content_type) end))
  pure (presign_upload s now key)

-- ===== src/Uploads/Models.antt =====
-- apps/uploads/models.py, and the keys of apps/uploads/storage.py.
use backend_live_canvas.Prelude.{ℕ, String, Bool, true, false, Option, concat, lstrip_dot}

-- `UploadPurpose`
pub data UploadPurpose : Type 0 where
  video image : UploadPurpose

abbrev pub purpose_eq : UploadPurpose → UploadPurpose → Bool
purpose_eq video video = true
purpose_eq video image = false
purpose_eq image video = false
purpose_eq image image = true

-- `UploadSlot`
pub record UploadSlot : Type 0 where
  pub id : ℕ
  pub key : String
  pub purpose : UploadPurpose
  pub content_type : String
  pub created_by : ℕ
  pub created_at : ℕ
  pub consumed_at : Option ℕ

-- storage.py: the two zones.
pub data Zone : Type 0 where
  private public : Zone

abbrev pub staging_prefix : String
staging_prefix = "staging/"

abbrev pub masters_prefix : String
masters_prefix = "masters/"

abbrev pub thumbs_prefix : String
thumbs_prefix = "thumbs/"

abbrev pub previews_prefix : String
previews_prefix = "previews/"

abbrev pub covers_prefix : String
covers_prefix = "covers/"

-- `new_key`; `uuid` is the hexadecimal text of the `uuid4` that the call draws.
unfoldable pub new_key : String → String → String → String
unfolding lstrip_dot
new_key uuid prefix ext = concat prefix (concat uuid (concat "." (lstrip_dot ext)))

-- ===== src/Uploads/Storage.antt =====
-- apps/uploads/storage.py: the addresses of objects, and the lifetimes of presigned links. The
-- client is not modelled; what it answers is an argument of its callers.
use backend_live_canvas.Prelude.{
  ℕ, ◌+◌, String, Option, none, some, concat, min, ◌==◌, rstrip_slash, if◌then◌else◌,
}
use backend_live_canvas.Uploads.Models.{Zone, private, public}

-- The settings that the module reads.
pub record Settings : Type 0 where
  pub private_bucket : String
  pub public_bucket : String
  pub cdn_base_url : String
  pub upload_ttl : ℕ
  pub download_ttl : ℕ
  pub upload_max_bytes : ℕ

-- `bucket_name`
unfoldable pub bucket_name : Settings → Zone → String
bucket_name s private = s.private_bucket
bucket_name s public = s.public_bucket

-- `public_url`
unfoldable pub public_url : Settings → String → String
public_url s key = concat (rstrip_slash s.cdn_base_url) (concat "/" key)

-- A presigned link: what is signed, for how many seconds, and the instant of its end.
pub record Presigned : Type 0 where
  pub bucket : String
  pub key : String
  pub expires_in : ℕ
  pub expires_at : ℕ

-- `presign_upload`, at the time `now` in seconds.
unfoldable pub presign_upload : Settings → ℕ → String → Presigned
unfolding bucket_name
presign_upload s now key = record {
  bucket = bucket_name s private;
  key = key;
  expires_in = s.upload_ttl;
  expires_at = now + s.upload_ttl;
}

-- `ttl or default`: zero counts as absent.
abbrev ttl_or : Option ℕ → ℕ → ℕ
ttl_or none d = d
ttl_or (some t) d = if t == 0 then d else t

-- `presign_download`
unfoldable pub presign_download : Settings → ℕ → String → Option ℕ → Presigned
unfolding bucket_name
presign_download s now key ttl =
    let t = min (ttl_or ttl s.download_ttl) s.download_ttl in
    record { bucket = bucket_name s private; key = key; expires_in = t; expires_at = now + t }

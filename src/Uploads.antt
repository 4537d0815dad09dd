-- ===== src/Uploads.antt =====
-- apps/uploads: upload slots, the storage zones, and the media pipeline.
pub mod Models
pub mod Attempt
pub mod Storage
pub mod Pipeline
pub mod Ffmpeg
pub mod Services
pub mod Commands

-- ===== src/Wallpapers.antt =====
-- apps/wallpapers: the catalog of wallpapers, tags and collections.
pub mod Models
pub mod Queries
pub mod Home
pub mod Serializers
pub mod Pagination
pub mod Views
pub mod Download
pub mod Upsert
pub mod Seed
pub mod Crawl
pub mod Fixture
pub mod Admin
pub mod Curation
pub mod AdminViews

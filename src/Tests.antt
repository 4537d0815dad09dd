-- ===== src/Tests.antt =====
-- Runs of the model on concrete inputs, and each theorem at an input that meets its hypotheses.
mod Core
mod Audit
mod Iap
mod Notify
mod Revoked
mod Purchase
mod Catalog
mod Uploads
mod Stores
mod Auth
mod Commands
mod Views
mod Tasks
mod Content
mod Fixture

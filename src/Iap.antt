-- ===== src/Iap.antt =====
-- apps/iap: purchases verified with the stores, entitlements, and store notifications.
pub mod Models
pub mod Tables
pub mod Verify
pub mod Gate
pub mod Notify
pub mod Stores
pub mod Webhook
pub mod Views
pub mod Holdings

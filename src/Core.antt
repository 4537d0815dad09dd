-- ===== src/Core.antt =====
-- The cross-cutting layer: core/*.py.
pub mod Errors
pub mod Exec
pub mod Handler
pub mod Text
pub mod Auth

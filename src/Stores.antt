-- ===== src/Stores.antt =====
-- The storage backends.
pub mod Table
pub mod Memory
pub mod Fallback
pub mod JsonFile
pub mod Database
pub mod Sql
pub mod Redis

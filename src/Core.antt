-- ===== src/Core.antt =====
-- The domain types of core/types.go, core/events.go and core/rules.go.
mod Types
pub mod Arith
pub mod UserName
pub mod BadgeName
pub mod Level
pub mod Clone
pub mod Events
pub mod Rules
pub use Types.*

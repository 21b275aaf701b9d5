-- ===== src/Engine.antt =====
-- The engine: the event bus, the storage interface, and the service over both.
pub mod Storage
pub mod Bus
pub mod Service

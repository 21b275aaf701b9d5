-- ===== src/Analytics.antt =====
-- analytics/.
pub mod Metrics
pub mod Readings
pub mod Ranking
pub mod Aggregation
pub mod Streaming
pub mod Export
pub mod Service

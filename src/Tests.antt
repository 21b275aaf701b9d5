-- ===== src/Tests.antt =====
-- Tests: concrete parameters of the model, and the theorems applied to concrete inputs.
mod Instances
mod CoreTests
mod EngineTests
mod StoreTests
mod HubTests
mod ConfigTests
mod AnalyticsTests
mod HttpTests
mod BuilderTests
mod LeaderboardTests
mod SqlDatabase
mod SqlTests
mod ReportTests
mod RedisTests

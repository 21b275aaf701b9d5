-- ===== src/Leaderboard.antt =====
-- leaderboard/.
pub mod Entry
pub mod SkipList
pub mod Calls

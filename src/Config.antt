-- ===== src/Config.antt =====
-- The configuration: its types and defaults, the validation, the profiles and the secrets.
pub mod Types
pub mod Checks
pub mod Profiles
pub mod Secrets

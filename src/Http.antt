-- ===== src/Http.antt =====
-- api/httpapi/httpapi.go.
pub mod Types
pub mod Paths
pub mod RateLimit
pub mod Auth
pub mod Users
pub mod Mux

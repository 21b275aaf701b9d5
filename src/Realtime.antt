-- ===== src/Realtime.antt =====
-- realtime/hub.go, and the wiring of the hub to the engine in gamify/gamify.go.
pub mod Hub

-- ===== src/Worker.antt =====
-- internal/worker/handlers.go: what the workers do with the events that a consumer hands them.
pub mod Webhooks
pub mod Sinks

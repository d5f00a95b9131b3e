-- ===== src/Platform.antt =====
-- internal/platform: the configuration, and the publisher for local tests.
pub mod Config
pub mod MemoryPublisher

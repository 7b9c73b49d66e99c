-- ===== src/Platform.antt =====
-- The process around the server: internal/platform.
pub mod Config

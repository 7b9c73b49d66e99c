-- ===== src/Http.antt =====
-- internal/adapter/httpapi.
pub mod Errors
pub mod Requests
pub mod Chat
pub mod Auth

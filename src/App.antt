-- ===== src/App.antt =====
-- internal/app: the use cases, over the repositories that they declare.
pub mod Exec
pub mod Cursor
pub mod Catalog
pub mod Seller
pub mod Chat
pub mod Auth

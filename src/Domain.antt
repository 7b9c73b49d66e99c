-- ===== src/Domain.antt =====
-- internal/domain: the marketplace's entities and the rules on their fields.
pub mod Errors
pub mod Listing
pub mod Handle
pub mod User
pub mod Chat
pub mod Profile

-- ===== src/Postgres.antt =====
-- internal/adapter/postgres: the stores, over the queries that sqlc generates.
pub mod Answers
pub mod Accounts
pub mod Chat

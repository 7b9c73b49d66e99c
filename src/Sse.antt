-- ===== src/Sse.antt =====
-- internal/adapter/sse: the process-local event broker.
pub mod Broker

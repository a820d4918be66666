-- ===== src/Retry.antt =====
-- ech_retry_handler.cc: the cache of retry configs, the retry handler, the degradation monitor.
pub mod Cache
pub mod Monitor
pub mod Health

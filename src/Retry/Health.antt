-- ===== src/Retry/Health.antt =====
-- ech_retry_handler.cc: `PerformECHHealthCheck`. It changes nothing; its result here is the number
-- that it logs.
use kiwi_network_patches.Prelude.{ℕ}
use kiwi_network_patches.Platform.LruCache.{LruOps}
use kiwi_network_patches.Retry.Cache.{CacheEntry, size}

abbrev perform_ech_health_check : {C K : Type 0} → LruOps C K CacheEntry → C → ℕ
perform_ech_health_check ops c = size ops c

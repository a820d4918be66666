-- ===== src/Quic/ZeroRtt.antt =====
-- quic_ech_integration.cc: when 0-RTT may be used, and what a migration resets.
use kiwi_network_patches.Prelude.{ℕ, ◌+◌, ◌≤◌, ◌≡◌, false, ◌||◌, arith}
use kiwi_network_patches.Prelude.Bytes.{Bytes, eqs, is_empty}
use kiwi_network_patches.Platform.LruCache.{LruOps, IsLru}
use kiwi_network_patches.Retry.Cache.{CacheEntry, hours_24, max_entries, store}
use kiwi_network_patches.Retry.Cache.Entries.{get-store}
use kiwi_network_patches.Retry.Monitor.{Stats, reset, should_disable_ech}
use kiwi_network_patches.Quic.{can_use_0rtt_with_ech, on_quic_connection_migration_with_ech}

-- In the 24 hours after a retry config of a server was stored, 0-RTT with a configuration is
-- allowed exactly if the configuration is empty, or the stored one is, or both are the same.
pub can_use_0rtt_with_ech-store :
    {C K : Type 0} (ops : LruOps C K CacheEntry) (lru : IsLru ops max_entries) (now later : ℕ)
    (server : K) (stored current : Bytes) (c : C)
    → later ≤ now + hours_24
    → (can_use_0rtt_with_ech ops later server current (store ops now server stored c)).0
      ≡ (is_empty current || (is_empty stored || eqs stored current))
unfolding can_use_0rtt_with_ech
can_use_0rtt_with_ech-store ops lru now later server stored current c young =
    ground (arith, get-store ops lru now later server stored c young)

-- After a migration ECH is not disabled for the server, and for every other host it is as before.
pub migration-should_disable_ech :
    {K : Type 0} (dec : Discrete K) (server host : K) (stats : Stats K)
    → should_disable_ech dec host (on_quic_connection_migration_with_ech dec server stats)
      ≡ (elim (dec host server) [ yes _ ↦ false | no _ ↦ should_disable_ech dec host stats ])
unfolding should_disable_ech on_quic_connection_migration_with_ech reset
migration-should_disable_ech dec server host stats = ground arith

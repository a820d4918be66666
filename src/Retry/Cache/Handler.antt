-- ===== src/Retry/Cache/Handler.antt =====
-- ech_retry_handler.cc: what `HandleECHRetry` answers, and what it leaves in the cache.
use kiwi_network_patches.Prelude.{
  ℕ, ◌+◌, ◌≤◌, ◌≡◌, Bool, true, false, ◌&&◌, none, some, [], ◌∷◌, arith, if◌then◌else◌, ◌⊎◌,
}
use kiwi_network_patches.Prelude.Bytes.{Bytes, is_empty}
use kiwi_network_patches.Platform.Features.{FeatureList, encrypted_client_hello}
use kiwi_network_patches.Platform.LruCache.{LruOps, IsLru}
use kiwi_network_patches.Platform.BoringSsl.{
  keys_new, keys_add, set_ech_keys, get_ech_retry_configs, Trace, SslEnv,
}
use kiwi_network_patches.Retry.Cache.{
  CacheEntry, hours_24, max_entries, get, ok, err_ech_fallback, err_failed, apply_retry_config,
  handle_ech_retry,
}
use kiwi_network_patches.Retry.Cache.Entries.{get-store}

-- Whether BoringSSL hands out a key object, accepts the config as it is, and accepts the keys.
abbrev pub config_taken : SslEnv → Bytes → Trace → Bool
config_taken env config t =
    env.accepts t keys_new
    && (env.accepts (keys_new ∷ t) (keys_add config)
        && env.accepts (keys_add config ∷ keys_new ∷ t) set_ech_keys)

module _ {C K : Type 0} (ops : LruOps C K CacheEntry) (features : FeatureList) (env : SslEnv) where
  -- With the feature on and a config from the server, the answer is OK exactly if BoringSSL takes
  -- the config, and an error otherwise; in either case the config is what the cache returns for
  -- the host in the next 24 hours.
  pub handle_ech_retry-config :
      (lru : IsLru ops max_entries) (now later : ℕ) (host : K) (config : Bytes) (c : C) (t : Trace)
      → features encrypted_client_hello ≡ true
      → env.retry_configs t ≡ some config
      → is_empty config ≡ false
      → later ≤ now + hours_24
      → ((handle_ech_retry ops features env now host c t).0
          ≡ (if config_taken env config (get_ech_retry_configs ∷ t) then ok else err_failed))
        × ((get ops later host (handle_ech_retry ops features env now host c t).1).0 ≡ config)
  unfolding handle_ech_retry apply_retry_config
  handle_ech_retry-config lru now later host config c t on server ne young = (
    rw (on, server, ne, handle_ech_retry) (ground arith),
    rw (on, server, ne, handle_ech_retry) (get-store ops lru now later host config c young),
  )

  -- In every other case the cache stays as it was: a disabled feature is an error, and a server
  -- without a config, or with an empty one, means the plain name.
  pub handle_ech_retry-fallback :
      (now : ℕ) (host : K) (c : C) (t : Trace)
      → (env.retry_configs t ≡ none) ⊎ (env.retry_configs t ≡ some [])
      → ((handle_ech_retry ops features env now host c t).0
          ≡ (if features encrypted_client_hello then err_ech_fallback else err_failed))
        × ((handle_ech_retry ops features env now host c t).1 ≡ c)
  unfolding handle_ech_retry
  handle_ech_retry-fallback now host c t h = (ground arith, ground arith)

-- ===== src/Retry/Cache.antt =====
-- ech_retry_handler.cc: `ECHRetryConfigCache`, over Chromium's LRU cache, and `HandleECHRetry`.
-- Times are microseconds. The lock makes each method one step.
pub mod Entries
pub mod Peeks
pub mod Unbounded
pub mod Exact
pub mod Handler
pub mod Offers
use kiwi_network_patches.Prelude.{
  ℕ, ◌-◌, ◌*◌, Bool, true, false, not, Option, none, some, List, [], ◌∷◌, ltb, if◌then◌else◌,
}
use kiwi_network_patches.Prelude.Bytes.{Bytes, is_empty}
use kiwi_network_patches.Platform.Features.{FeatureList, encrypted_client_hello}
use kiwi_network_patches.Platform.LruCache.{LruOps}
use kiwi_network_patches.Platform.BoringSsl.{
  keys_new, keys_add, set_ech_keys, get_ech_retry_configs, record_retry_applied, Trace, SslEnv,
}

pub record CacheEntry : Type 0 where
  pub config : Bytes
  pub stored_at : ℕ

-- `base::Hours(24)`.
abbrev pub hours_24 : ℕ
hours_24 = 24 * 3600 * 1000000

-- The room that the constructor asks for.
abbrev pub max_entries : ℕ
max_entries = 1000

module _ {C K : Type 0} (ops : LruOps C K CacheEntry) where
  unfoldable pub store : ℕ → K → Bytes → C → C
  store now host_port retry_config c =
      ops.put host_port (record { config = retry_config; stored_at = now }) c

  -- `TimeTicks` do not run backwards; a difference below 0 would count as fresh, as 0 does.
  unfoldable pub get : ℕ → K → C → Bytes × C
  get now host_port c =
      let (it, c1) = ops.get host_port c in
      elim it [
        | none ↦ ([], c1)
        | some e ↦
            if ltb hours_24 (now - e.stored_at)
            then ([], ops.erase host_port c1)
            else (e.config, c1)
      ]

  unfoldable pub invalidate : K → C → C
  invalidate host_port c = ops.erase host_port c

  unfoldable pub clear : C → C
  clear c = ops.clear c

  unfoldable pub size : C → ℕ
  size c = ops.size c

-- The results of `HandleECHRetry`: `OK`, `ERR_ECH_FALLBACK`, `ERR_FAILED`.
pub data NetError : Type 0 where
  ok err_ech_fallback err_failed : NetError

module _ {C K : Type 0} (ops : LruOps C K CacheEntry) (features : FeatureList) (env : SslEnv) where
  -- `HandleECHRetry` behind the store.
  unfoldable pub apply_retry_config : Bytes → Trace → NetError × Trace
  apply_retry_config retry_config t =
      let t1 = keys_new ∷ t in
      let t2 = keys_add retry_config ∷ t1 in
      let t3 = set_ech_keys ∷ t2 in
      if not (env.accepts t keys_new)
      then (err_failed, t1)
      else if not (env.accepts t1 (keys_add retry_config))
      then (err_failed, t2)
      else if not (env.accepts t2 set_ech_keys)
      then (err_failed, t3)
      else (ok, record_retry_applied ∷ t3)

  unfoldable pub handle_ech_retry : ℕ → K → C → Trace → NetError × C × Trace
  handle_ech_retry now host_port c t =
      let t1 = get_ech_retry_configs ∷ t in
      let fall_back : NetError × C × Trace = (err_ech_fallback, c, t1) in
      if not (features encrypted_client_hello)
      then (err_failed, c, t)
      else elim (env.retry_configs t) [
        | none ↦ fall_back
        | some config ↦
            if is_empty config
            then fall_back
            else (let (e, t2) = apply_retry_config config t1 in
                (e, store ops now host_port config c, t2))
      ]

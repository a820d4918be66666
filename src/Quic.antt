-- ===== src/Quic.antt =====
-- quic_ech_integration.cc: ECH on QUIC connections.
pub mod SameAsTcp
pub mod ZeroRtt
use kiwi_network_patches.Prelude.{
  ℕ, suc, Bool, true, false, not, ◌&&◌, Option, none, some, [], ◌∷◌, length, if◌then◌else◌,
}
use kiwi_network_patches.Prelude.Bytes.{Bytes, eqs, is_empty}
use kiwi_network_patches.Prelude.Drain.{drain}
use kiwi_network_patches.Platform.Features.{FeatureList, encrypted_client_hello}
use kiwi_network_patches.Platform.Bytestring.{Cbs}
use kiwi_network_patches.Platform.LruCache.{LruOps}
use kiwi_network_patches.Platform.BoringSsl.{
  keys_new, set_ech_keys, set_ech_grease_enabled, Trace, SslEnv,
}
use kiwi_network_patches.Tls.EchManager.{KeysState, is_supported, add_key}
use kiwi_network_patches.Retry.Cache
use kiwi_network_patches.Retry.Cache.{CacheEntry}
use kiwi_network_patches.Retry.Monitor
use kiwi_network_patches.Retry.Monitor.{Stats}

module _ (cbs : Cbs) (env : SslEnv) where
  -- The body of the loop over ECHConfigs.
  unfoldable pub quic_body : Bytes → KeysState → Option (Bytes × KeysState)
  quic_body s x = elim (cbs.get_u16 s) [
    | none ↦ none
    | some (version, s1) ↦ elim (cbs.get_u16_length_prefixed s1) [
      | none ↦ none
      | some (contents, s2) ↦
          if is_supported version then some (s2, add_key env contents x) else some (s2, x)
    ]
  ]

  unfoldable pub quic_apply_keys : KeysState → Trace
  quic_apply_keys x =
      if not x.applied
      then x.trace
      else if not (env.accepts x.trace set_ech_keys)
      then set_ech_keys ∷ x.trace
      else set_ech_grease_enabled ∷ set_ech_keys ∷ x.trace

  -- `ConfigureECHForQuicSession`: the trace of calls behind it; `none` for fuel that ran out.
  unfoldable pub configure_ech_for_quic_session : FeatureList → Bytes → Trace → Option Trace
  configure_ech_for_quic_session features ech_config t =
      if not (features encrypted_client_hello)
      then some t
      else if is_empty ech_config
      then some t
      else if not (env.accepts t keys_new)
      then some (keys_new ∷ t)
      else elim (drain quic_body (suc (length ech_config)) ech_config
          (record { trace = keys_new ∷ t; applied = false })) [
            | none ↦ none
            | some x ↦ some (quic_apply_keys x)
          ]

-- `CanUse0RttWithECH`; looking the host up may change the cache. `server` is the host and port.
unfoldable pub can_use_0rtt_with_ech :
    {C K : Type 0} → LruOps C K CacheEntry → ℕ → K → Bytes → C → Bool × C
can_use_0rtt_with_ech ops now server current_ech_config c =
    if is_empty current_ech_config
    then (true, c)
    else (let (cached_ech, c1) = Cache.get ops now server c in
        if not (is_empty cached_ech) && not (eqs cached_ech current_ech_config)
        then (false, c1)
        else (true, c1))

-- `OnQuicConnectionMigrationWithECH`.
unfoldable pub on_quic_connection_migration_with_ech :
    {K : Type 0} → Discrete K → K → Stats K → Stats K
on_quic_connection_migration_with_ech dec server stats = Monitor.reset dec server stats

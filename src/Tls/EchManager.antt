-- ===== src/Tls/EchManager.antt =====
-- ssl_client_socket.cc: `ECHManager`. Functions return the trace of calls behind them; `none`
-- stands for fuel that ran out in a loop, which has more fuel than there are bytes left.
pub mod ConfigList
pub mod Configure
pub mod Retry
pub mod Rounds
use kiwi_network_patches.Prelude.{
  ℕ, suc, Bool, true, false, not, ◌&&◌, ◌||◌, Option, none, some, List, [], ◌∷◌, length, ◌==◌,
  if◌then◌else◌,
}
use kiwi_network_patches.Prelude.Bytes.{Bytes, is_empty}
use kiwi_network_patches.Prelude.Drain.{drain}
use kiwi_network_patches.Platform.Features.{FeatureList, encrypted_client_hello}
use kiwi_network_patches.Platform.Bytestring.{Cbs}
use kiwi_network_patches.Platform.BoringSsl.{
  Call, keys_new, keys_add, set_ech_keys, set_ech_grease_enabled, get_ech_retry_configs,
  record_result, failed_retry, failed_fallback, no_config, not_attempted, Trace, SslEnv,
}

-- The variables of a loop over ECHConfigs: the calls made, and `has_valid_config` or `applied`.
pub record KeysState : Type 0 where
  pub trace : Trace
  pub applied : Bool

-- `version != 0xFE0D && version != 0xFE0C`, negated.
abbrev pub is_supported : ℕ → Bool
is_supported version = version == 0xFE0D || version == 0xFE0C

-- `SSL_ECH_KEYS_add`; a success sets the flag.
abbrev pub add_key : SslEnv → Bytes → KeysState → KeysState
add_key env contents x = record {
  trace = keys_add contents ∷ x.trace;
  applied = if env.accepts x.trace (keys_add contents) then true else x.applied;
}

-- `EnableECHGrease`.
unfoldable pub enable_ech_grease : FeatureList → Trace → Trace
enable_ech_grease features t =
    if not (features encrypted_client_hello) then t else set_ech_grease_enabled ∷ t

-- `ssl_ech_retry_t`.
pub data EchRetry : Type 0 where
  retry_abort retry_retry : EchRetry

module _ (cbs : Cbs) (env : SslEnv) where
  -- The body of the loop in `ConfigureECH`: the version, then the contents.
  unfoldable pub configure_body : Bytes → KeysState → Option (Bytes × KeysState)
  configure_body s x = elim (cbs.get_u16 s) [
    | none ↦ none
    | some (version, s1) ↦ elim (cbs.get_u16_length_prefixed s1) [
      | none ↦ none
      | some (contents, s2) ↦
          if not (is_supported version) then some (s2, x) else some (s2, add_key env contents x)
    ]
  ]

  -- The body of the loop in `ECHRetryCallback`, which does not look at the number it reads.
  unfoldable pub retry_body : Bytes → KeysState → Option (Bytes × KeysState)
  retry_body s x = elim (cbs.get_u16 s) [
    | none ↦ none
    | some (config_id, s1) ↦ elim (cbs.get_u16_length_prefixed s1) [
      | none ↦ none
      | some (contents, s2) ↦ some (s2, add_key env contents x)
    ]
  ]

  module _ (features : FeatureList) where
    -- An error path of `ConfigureECH`: GREASE, and the histogram.
    abbrev pub give_up : Trace → Bool × Trace
    give_up t = (false, record_result failed_fallback ∷ enable_ech_grease features t)

    -- `ConfigureECH` behind the loop.
    unfoldable pub apply_keys : KeysState → Bool × Trace
    apply_keys x =
        if not x.applied
        then give_up x.trace
        else if not (env.accepts x.trace set_ech_keys)
        then give_up (set_ech_keys ∷ x.trace)
        else (true, set_ech_keys ∷ x.trace)

    unfoldable pub configure_ech : Bytes → Trace → Option (Bool × Trace)
    configure_ech ech_config_list t =
        if not (features encrypted_client_hello)
        then some (false, record_result not_attempted ∷ t)
        else if is_empty ech_config_list
        then some (false, record_result no_config ∷ enable_ech_grease features t)
        else if not (env.accepts t keys_new)
        then some (false, record_result failed_fallback ∷ keys_new ∷ t)
        else elim (drain configure_body (suc (length ech_config_list)) ech_config_list
            (record { trace = keys_new ∷ t; applied = false })) [
              | none ↦ none
              | some x ↦ some (apply_keys x)
            ]

  -- `ECHRetryCallback` on what the server returned.
  unfoldable pub retry_with : Bytes → Trace → Option (EchRetry × Trace)
  retry_with retry_config t =
      if not (env.accepts t keys_new)
      then some (retry_abort, keys_new ∷ t)
      else elim (drain retry_body (suc (length retry_config)) retry_config
          (record { trace = keys_new ∷ t; applied = false })) [
            | none ↦ none
            | some x ↦
                if not x.applied
                then some (retry_abort, x.trace)
                else if not (env.accepts x.trace set_ech_keys)
                then some (retry_abort, set_ech_keys ∷ x.trace)
                else some (retry_retry, record_result failed_retry ∷ set_ech_keys ∷ x.trace)
          ]

  unfoldable pub ech_retry_callback : Trace → Option (EchRetry × Trace)
  ech_retry_callback t =
      let t1 = get_ech_retry_configs ∷ t in
      let missing = some (retry_abort, record_result failed_fallback ∷ t1) in
      elim (env.retry_configs t) [
        | none ↦ missing
        | some config ↦ if is_empty config then missing else retry_with config t1
      ]

-- ===== src/Tls/Connection.antt =====
-- ssl_client_socket.cc: the settings of a connection besides ECH, `ConfigureKiwiSSL` that makes all
-- of them, and `AnalyzeKiwiSSLResult`. Functions return the trace of calls behind them.
pub mod Profiles
pub mod Result
use kiwi_network_patches.Prelude.{
  ℕ, ◌*◌, Bool, true, false, not, ◌&&◌, Option, none, some, [], ◌∷◌, ltb, ◌==◌, if◌then◌else◌,
}
use kiwi_network_patches.Prelude.Bytes.{Bytes, text}
use kiwi_network_patches.Platform.Features.{
  FeatureList, post_quantum_cecpq2, enable_tls13_early_data, permute_tls_extensions,
  tls13_key_update,
}
use kiwi_network_patches.Platform.Bytestring.{Cbs}
use kiwi_network_patches.Platform.BoringSsl.{
  set_ech_retry_callback, ctx_set1_groups_list, ssl_set1_groups_list, clear_error,
  set_early_data_enabled, set_max_early_data_size, set_permute_extensions, set_key_update_interval,
  Trace, SslEnv,
}
use kiwi_network_patches.Tls.Config.{SslConfig}
use kiwi_network_patches.Tls.EchManager.{configure_ech, enable_ech_grease}

abbrev pub groups : Bytes
groups = text "X25519Kyber768Draft00:X25519"

module _ (features : FeatureList) (env : SslEnv) where
  -- `KyberConfigManager::ConfigureKyber`.
  unfoldable pub configure_kyber : Trace → Trace
  configure_kyber t =
      if not (features post_quantum_cecpq2)
      then t
      else if not (env.accepts t (ctx_set1_groups_list groups))
      then clear_error ∷ ctx_set1_groups_list groups ∷ t
      else ctx_set1_groups_list groups ∷ t

  -- `KyberConfigManager::ConfigureKyberForSSL`.
  unfoldable pub configure_kyber_for_ssl : Trace → Trace
  configure_kyber_for_ssl t =
      if not (features post_quantum_cecpq2)
      then t
      else if not (env.accepts t (ssl_set1_groups_list groups))
      then clear_error ∷ ssl_set1_groups_list groups ∷ t
      else ssl_set1_groups_list groups ∷ t

unfoldable pub configure_tls13_early_data : FeatureList → SslConfig → Trace → Trace
configure_tls13_early_data features config t =
    if not (features enable_tls13_early_data)
    then t
    else if config.tls13_early_data_enabled
    then set_max_early_data_size (64 * 1024) ∷ set_early_data_enabled ∷ t
    else t

unfoldable pub configure_tls_extension_permutation : FeatureList → Trace → Trace
configure_tls_extension_permutation features t =
    if not (features permute_tls_extensions) then t else set_permute_extensions ∷ t

-- Step 7 of `ConfigureKiwiSSL`.
unfoldable pub configure_key_update : FeatureList → SslConfig → Trace → Trace
configure_key_update features config t =
    if features tls13_key_update
    then (if ltb 0 config.tls13_key_update_interval
        then set_key_update_interval config.tls13_key_update_interval ∷ t
        else t)
    else t

-- The steps of `ConfigureKiwiSSL` behind the first. It returns OK whatever they do.
unfoldable pub configure_rest : FeatureList → SslEnv → SslConfig → Trace → Trace
configure_rest features env config t1 =
    let t2 = enable_ech_grease features t1 in
    let t3 = set_ech_retry_callback ∷ t2 in
    let t4 = configure_kyber features env t3 in
    let t5 = configure_tls13_early_data features config t4 in
    let t6 = configure_tls_extension_permutation features t5 in
    configure_key_update features config t6

unfoldable pub configure_kiwi_ssl : Cbs → SslEnv → FeatureList → SslConfig → Trace → Option Trace
configure_kiwi_ssl cbs env features config t =
    elim (configure_ech cbs env features config.ech_config_list t) [
      | none ↦ none
      | some (_, t1) ↦ some (configure_rest features env config t1)
    ]

-- `strncmp(s, needle, strlen(needle)) == 0`, and `strstr(s, needle) != nullptr`.
abbrev pub starts_with : Bytes → Bytes → Bool
starts_with [] s = true
starts_with (c ∷ needle) [] = false
starts_with (c ∷ needle) (b ∷ s) = b == c && starts_with needle s

unfoldable pub strstr : Bytes → Bytes → Bool
strstr needle [] = starts_with needle []
strstr needle (b ∷ s) = if starts_with needle (b ∷ s) then true else strstr needle s

-- `KyberConfigManager::DidUsePostQuantumKeys`; the argument is `SSL_get_group_name` at the group
-- of the connection, `none` for a null pointer.
unfoldable pub did_use_post_quantum_keys : Option Bytes → Bool
did_use_post_quantum_keys group_name = elim group_name [
  | none ↦ false
  | some name ↦ strstr (text "Kyber") name
]

-- The fields of `SSLInfo` that the patches set.
pub record SslInfo : Type 0 where
  pub ech_accepted : Bool
  pub post_quantum_key_exchange : Bool

-- What `SSL_ech_accepted` and `SSL_get_group_name` say of a connection.
pub record Handshake : Type 0 where
  pub accepted : Bool
  pub group_name : Option Bytes

-- `none` for a null `ssl`.
unfoldable pub analyze_kiwi_ssl_result : Option Handshake → SslInfo → SslInfo
analyze_kiwi_ssl_result none info = info
analyze_kiwi_ssl_result (some ssl) info =
    let info1 = if ssl.accepted then record info { ech_accepted = true } else info in
    if did_use_post_quantum_keys ssl.group_name
    then record info1 { post_quantum_key_exchange = true }
    else info1

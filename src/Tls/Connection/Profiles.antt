-- ===== src/Tls/Connection/Profiles.antt =====
-- ssl_client_socket.cc: which calls `ConfigureKiwiSSL` makes under each profile.
use kiwi_network_patches.Prelude.{◌≡◌, Bool, true, some, List, [], ◌∷◌, ◌++◌}
use kiwi_network_patches.Prelude.Bytes.{AreBytes}
use kiwi_network_patches.Platform.Features.{
  FeatureList, encrypted_client_hello, post_quantum_cecpq2, enable_tls13_early_data,
  permute_tls_extensions, tls13_key_update,
}
use kiwi_network_patches.Platform.Bytestring.{Cbs, IsCbs}
use kiwi_network_patches.Platform.BoringSsl.{
  Call, set_ech_grease_enabled, set_ech_retry_callback, ctx_set1_groups_list,
  set_early_data_enabled, set_max_early_data_size, set_permute_extensions, set_key_update_interval,
  Trace, SslEnv,
}
use kiwi_network_patches.Tls.Config.{
  SslConfig, KiwiSslProfile, balanced, secure, compatible, configure_kiwi_ssl_profile,
}
use kiwi_network_patches.Tls.EchManager.{configure_ech, enable_ech_grease}
use kiwi_network_patches.Tls.EchManager.Configure.{configure_ech-answer}
use kiwi_network_patches.Tls.Connection.{
  groups, configure_kyber, configure_tls13_early_data, configure_tls_extension_permutation,
  configure_key_update, configure_rest, configure_kiwi_ssl,
}

-- Every feature is on.
pub record AllOn (features : FeatureList) : Type 0 where
  pub ech : features encrypted_client_hello ≡ true
  pub kyber : features post_quantum_cecpq2 ≡ true
  pub early_data : features enable_tls13_early_data ≡ true
  pub permutation : features permute_tls_extensions ≡ true
  pub key_update : features tls13_key_update ≡ true

-- The calls that a profile decides, newest first.
abbrev pub key_update_calls : KiwiSslProfile → List Call
key_update_calls balanced = set_key_update_interval 100 ∷ []
key_update_calls secure = set_key_update_interval 50 ∷ []
key_update_calls compatible = []

abbrev pub early_data_calls : KiwiSslProfile → List Call
early_data_calls balanced = set_max_early_data_size 65536 ∷ set_early_data_enabled ∷ []
early_data_calls secure = set_max_early_data_size 65536 ∷ set_early_data_enabled ∷ []
early_data_calls compatible = []

-- Those that no profile changes: GREASE, the callback, the hybrid groups.
abbrev pub common_calls : List Call
common_calls = ctx_set1_groups_list groups ∷ set_ech_retry_callback ∷ set_ech_grease_enabled ∷ []

-- With every feature on and the groups accepted, the calls behind those of `ConfigureECH` are, from
-- the oldest: GREASE, the retry callback and the groups "X25519Kyber768Draft00:X25519" under every
-- profile, then early data with its limit of 64 KB unless the profile is the compatible one, the
-- permutation of extensions, and the key update interval of the profile unless it is 0.
pub configure_kiwi_ssl-profile :
    (features : FeatureList) (cbs : Cbs) (laws : IsCbs cbs) (env : SslEnv) (config : SslConfig)
    (profile : KiwiSslProfile) (t : Trace)
    → AreBytes config.ech_config_list
    → AllOn features
    → ((t1 : Trace) → env.accepts t1 (ctx_set1_groups_list groups) ≡ true)
    → (b : Bool) × (t1 : Trace) × (configure_ech cbs env features config.ech_config_list t
        ≡ some (b, t1))
      × (configure_kiwi_ssl cbs env features (configure_kiwi_ssl_profile config profile) t
          ≡ some (
              key_update_calls profile
              ++ (set_permute_extensions ∷ (early_data_calls profile ++ (common_calls ++ t1)))))
unfolding configure_kiwi_ssl configure_rest configure_kyber configure_tls13_early_data
    configure_tls_extension_permutation configure_key_update enable_ech_grease
    configure_kiwi_ssl_profile
configure_kiwi_ssl-profile features cbs laws env config profile t bytes on takes =
    let (configs, tail, eq, ok, end, t1, run) =
      configure_ech-answer features cbs laws env config.ech_config_list t bytes in
    (_, t1, run, finish profile t1 run)
  where
    finish :
        (p : KiwiSslProfile) {b : Bool} (t1 : Trace)
        → configure_ech cbs env features config.ech_config_list t ≡ some (b, t1)
        → configure_kiwi_ssl cbs env features (configure_kiwi_ssl_profile config p) t
          ≡ some (
              key_update_calls p
              ++ (set_permute_extensions ∷ (early_data_calls p ++ (common_calls ++ t1))))
    finish balanced t1 run = rw (
      run, on.ech, on.kyber, on.early_data, on.permutation, on.key_update, takes,
      configure_kiwi_ssl,
    )
    finish secure t1 run = rw (
      run, on.ech, on.kyber, on.early_data, on.permutation, on.key_update, takes,
      configure_kiwi_ssl,
    )
    finish compatible t1 run = rw (
      run, on.ech, on.kyber, on.early_data, on.permutation, on.key_update, takes,
      configure_kiwi_ssl,
    )

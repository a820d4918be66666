-- ===== src/Tests/Suite/Handshakes.antt =====
-- unittests/ech_config_manager_test.cc, with a BoringSSL that accepts everything.
use kiwi_network_patches.Prelude.{
  ℕ, zero, suc, ◌≡◌, refl, Bool, true, false, Option, none, some, [], ◌∷◌, ◌++◌,
}
use kiwi_network_patches.Prelude.Bytes.{Bytes, text}
use kiwi_network_patches.Prelude.Drain.{drain}
use kiwi_network_patches.Platform.Features.{FeatureList}
use kiwi_network_patches.Tls.EchManager.{
  configure_body, apply_keys, enable_ech_grease, configure_ech,
}
use kiwi_network_patches.Tls.Config.{balanced, secure, compatible, configure_kiwi_ssl_profile}
use kiwi_network_patches.Metrics.{calculate_security_score}
use kiwi_network_patches.Tests.World.{list_cbs, all_features, willing}
use kiwi_network_patches.Tests.Request.{empty_config}

abbrev numbers_from : ℕ → ℕ → Bytes
numbers_from zero k = []
numbers_from (suc n) k = k ∷ numbers_from n (suc k)

-- `CreateMinimalEchConfig`: version, length 32, and the bytes from 0 to 31.
abbrev create_minimal_ech_config : Bytes
create_minimal_ech_config = 0xFE ∷ 0x0D ∷ 0x00 ∷ 0x20 ∷ numbers_from 32 0

abbrev copies : ℕ → Bytes → Bytes
copies zero s = []
copies (suc n) s = s ++ copies n s

-- What `ConfigureECH` returns.
abbrev answer : FeatureList → Bytes → Option Bool
answer features config = elim (configure_ech list_cbs (willing none) features config []) [
  | none ↦ none
  | some r ↦ some r.0
]

feature_disabled : answer (λ f. false) (text "some_config") ≡ some false
unfolding configure_ech
feature_disabled = refl

empty_config_sends_grease : answer all_features [] ≡ some false
unfolding configure_ech
empty_config_sends_grease = refl

valid_config_applied : answer all_features create_minimal_ech_config ≡ some true
unfolding configure_ech drain configure_body apply_keys
valid_config_applied = refl

multiple_configs : answer all_features (copies 3 create_minimal_ech_config) ≡ some true
unfolding configure_ech drain configure_body apply_keys
multiple_configs = refl

malformed_config :
    (answer all_features (0xFF ∷ []) ≡ some false)
    × (answer all_features (copies 100 (0xAB ∷ [])) ≡ some false)
    × (answer all_features (0xFF ∷ 0xFF ∷ 0x00 ∷ 0x20 ∷ numbers_from 32 0) ≡ some false)
unfolding configure_ech drain configure_body apply_keys enable_ech_grease
malformed_config = (refl, refl, refl)

ssl_profiles :
    ((configure_kiwi_ssl_profile empty_config balanced).tls13_key_update_interval ≡ 100)
    × ((configure_kiwi_ssl_profile empty_config secure).tls13_key_update_interval ≡ 50)
    × ((configure_kiwi_ssl_profile empty_config compatible).pq_key_exchange_preference
        ≡ text "X25519")
unfolding configure_kiwi_ssl_profile
ssl_profiles = (refl, refl, refl)

metrics_reporting : calculate_security_score true true true true 0x0304 ≡ 100
unfolding calculate_security_score
metrics_reporting = refl

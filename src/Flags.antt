-- ===== src/Flags.antt =====
-- networking_features.cc: the feature switches that the file declares. Each is a name and a default
-- state, both on. The code asks Chromium's own features (Platform/Features), not these.
use kiwi_network_patches.Prelude.{Bool, true, List, [], ◌∷◌}
use kiwi_network_patches.Prelude.Bytes.{Bytes, text}

-- `base::Feature`, as `BASE_FEATURE` makes it.
pub record BaseFeature : Type 0 where
  pub name : Bytes
  pub enabled_by_default : Bool

abbrev pub kiwi_ech : BaseFeature
kiwi_ech = record { name = text "KiwiECH"; enabled_by_default = true }

abbrev pub kiwi_post_quantum_kyber : BaseFeature
kiwi_post_quantum_kyber = record { name = text "KiwiPostQuantumKyber"; enabled_by_default = true }

abbrev pub kiwi_tls13_early_data : BaseFeature
kiwi_tls13_early_data = record { name = text "KiwiTLS13EarlyData"; enabled_by_default = true }

abbrev pub kiwi_tls13_key_update : BaseFeature
kiwi_tls13_key_update = record { name = text "KiwiTLS13KeyUpdate"; enabled_by_default = true }

abbrev pub kiwi_permute_tls_extensions : BaseFeature
kiwi_permute_tls_extensions = record {
  name = text "KiwiPermuteTLSExtensions";
  enabled_by_default = true;
}

abbrev pub kiwi_quic_optimizations : BaseFeature
kiwi_quic_optimizations = record { name = text "KiwiQuicOptimizations"; enabled_by_default = true }

abbrev pub kiwi_dns_https_svcb : BaseFeature
kiwi_dns_https_svcb = record { name = text "KiwiDnsHttpsSvcb"; enabled_by_default = true }

abbrev pub kiwi_doh_providers : BaseFeature
kiwi_doh_providers = record { name = text "KiwiDohProviders"; enabled_by_default = true }

abbrev pub kiwi_http3_preferred : BaseFeature
kiwi_http3_preferred = record { name = text "KiwiHttp3Preferred"; enabled_by_default = true }

abbrev pub kiwi_features : List BaseFeature
kiwi_features =
    kiwi_ech ∷ kiwi_post_quantum_kyber ∷ kiwi_tls13_early_data ∷ kiwi_tls13_key_update
    ∷ kiwi_permute_tls_extensions ∷ kiwi_quic_optimizations ∷ kiwi_dns_https_svcb
    ∷ kiwi_doh_providers ∷ kiwi_http3_preferred ∷ []

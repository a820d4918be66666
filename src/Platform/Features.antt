-- ===== src/Platform/Features.antt =====
-- `base::FeatureList::IsEnabled`, at the features that the sources ask for.
use kiwi_network_patches.Prelude.{Bool}

pub data Feature : Type 0 where
  encrypted_client_hello post_quantum_cecpq2 enable_tls13_early_data : Feature
  permute_tls_extensions tls13_key_update use_dns_https_svcb : Feature

abbrev pub FeatureList : Type 0
FeatureList = Feature → Bool

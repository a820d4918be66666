-- ===== src/Mojo.antt =====
-- mojo_ipc_integration.cc: configurations between the processes.
pub mod Transfer
use kiwi_network_patches.Prelude.{Bool, not, Option, none, some, [], if◌then◌else◌}
use kiwi_network_patches.Prelude.Bytes.{Bytes, text}
use kiwi_network_patches.Platform.Features.{
  FeatureList, encrypted_client_hello, permute_tls_extensions,
}
use kiwi_network_patches.Tls.Config.{SslConfig}

-- The fields that the patches add to `mojom::SSLConfig`.
pub record MojoSslConfig : Type 0 where
  pub mojo_ech_config_list : Bytes
  pub mojo_pq_key_exchange_preference : Bytes
  pub mojo_tls13_early_data_enabled : Bool
  pub mojo_permute_tls_extensions : Bool

unfoldable pub serialize_ssl_config : FeatureList → SslConfig → MojoSslConfig
serialize_ssl_config features config = record {
  mojo_ech_config_list = config.ech_config_list;
  mojo_pq_key_exchange_preference = config.pq_key_exchange_preference;
  mojo_tls13_early_data_enabled = config.tls13_early_data_enabled;
  mojo_permute_tls_extensions = features permute_tls_extensions;
}

-- `none` for a null pointer.
unfoldable pub deserialize_ssl_config : Option MojoSslConfig → SslConfig → SslConfig
deserialize_ssl_config none config = config
deserialize_ssl_config (some mojo_config) config = record config {
  ech_config_list = mojo_config.mojo_ech_config_list;
  pq_key_exchange_preference = mojo_config.mojo_pq_key_exchange_preference;
  tls13_early_data_enabled = mojo_config.mojo_tls13_early_data_enabled;
}

-- The fields that the patches add to `NetworkContextParams`.
pub record NetworkDefaults : Type 0 where
  pub default_ech_config : Bytes
  pub default_pq_key_exchange : Bytes

unfoldable pub apply_kiwi_network_context_config :
    FeatureList → Option NetworkDefaults → Option NetworkDefaults
apply_kiwi_network_context_config features none = none
apply_kiwi_network_context_config features (some params) =
    let p = record params {
      default_ech_config = [];
      default_pq_key_exchange = text "X25519Kyber768Draft00:X25519";
    } in
    some (if not (features encrypted_client_hello) then record p { default_ech_config = [] } else p)

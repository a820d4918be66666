-- ===== src/Tls/Config.antt =====
-- The fields of `SSLConfig` that the patches add, and `ConfigureKiwiSSLProfile` of
-- ssl_client_socket.cc with `KiwiSSLProfile` of kiwi_ssl_config.h.
use kiwi_network_patches.Prelude.{ℕ, Bool, true, false}
use kiwi_network_patches.Prelude.Bytes.{Bytes, text}

pub record SslConfig : Type 0 where
  pub ech_config_list : Bytes
  pub ech_grease_enabled : Bool
  pub tls13_early_data_enabled : Bool
  pub tls13_key_update_interval : ℕ
  pub pq_key_exchange_preference : Bytes

pub data KiwiSslProfile : Type 0 where
  balanced secure compatible : KiwiSslProfile

unfoldable pub configure_kiwi_ssl_profile : SslConfig → KiwiSslProfile → SslConfig
configure_kiwi_ssl_profile config balanced = record config {
  ech_grease_enabled = true;
  tls13_early_data_enabled = true;
  tls13_key_update_interval = 100;
  pq_key_exchange_preference = text "X25519Kyber768Draft00:X25519";
}
configure_kiwi_ssl_profile config secure = record config {
  ech_grease_enabled = true;
  tls13_early_data_enabled = true;
  tls13_key_update_interval = 50;
  pq_key_exchange_preference = text "X25519Kyber768Draft00";
}
configure_kiwi_ssl_profile config compatible = record config {
  ech_grease_enabled = false;
  tls13_early_data_enabled = false;
  tls13_key_update_interval = 0;
  pq_key_exchange_preference = text "X25519";
}

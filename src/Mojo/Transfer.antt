-- ===== src/Mojo/Transfer.antt =====
-- mojo_ipc_integration.cc: what of a configuration survives the way to the network service, and
-- what `ConfigureKiwiSSL` then does.
use kiwi_network_patches.Prelude.{◌≡◌, some}
use kiwi_network_patches.Platform.Features.{FeatureList}
use kiwi_network_patches.Platform.Bytestring.{Cbs}
use kiwi_network_patches.Platform.BoringSsl.{Trace, SslEnv}
use kiwi_network_patches.Tls.Config.{SslConfig}
use kiwi_network_patches.Tls.Connection.{
  configure_rest, configure_kiwi_ssl, configure_tls13_early_data, configure_key_update,
}
use kiwi_network_patches.Mojo.{serialize_ssl_config, deserialize_ssl_config}

-- Behind the transfer a connection is set up by the same calls as before it, provided that the
-- receiver already had the sender's key update interval.
pub configure_kiwi_ssl-transfer :
    (cbs : Cbs) (env : SslEnv) (features : FeatureList) (config target : SslConfig) (t : Trace)
    → target.tls13_key_update_interval ≡ config.tls13_key_update_interval
    → configure_kiwi_ssl cbs env features
        (deserialize_ssl_config (some (serialize_ssl_config features config)) target)
        t
      ≡ configure_kiwi_ssl cbs env features config t
unfolding deserialize_ssl_config serialize_ssl_config configure_kiwi_ssl configure_rest
    configure_tls13_early_data configure_key_update
configure_kiwi_ssl-transfer cbs env features config target t same = rw same

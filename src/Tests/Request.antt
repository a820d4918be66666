-- ===== src/Tests/Request.antt =====
-- A record of a name, and the requests at its key and at another.
use kiwi_network_patches.Prelude.{false, ◌≡◌, false, some, [], ◌∷◌}
use kiwi_network_patches.Tls.Config.{SslConfig}
use kiwi_network_patches.Dns.Process.{process_https_record}
use kiwi_network_patches.Dns.Process.FirstValid.{stored, process_records-FirstValid}
use kiwi_network_patches.Tests.World.{
  list_cbs, list_cbs-IsCbs, protocol, all_features, contexts, Stored, nothing_stored,
}
use kiwi_network_patches.Tests.Dns.{raw, www, raw-FirstValid}

abbrev pub after : Stored
after = stored contexts 7 nothing_stored (some www)

pub processed :
    process_https_record all_features list_cbs protocol contexts 7 (some (raw ∷ [])) nothing_stored
    ≡ some after
unfolding process_https_record
processed =
    process_records-FirstValid all_features list_cbs list_cbs-IsCbs protocol contexts 7
      nothing_stored raw-FirstValid

abbrev pub empty_config : SslConfig
empty_config = record {
  ech_config_list = [];
  ech_grease_enabled = false;
  tls13_early_data_enabled = false;
  tls13_key_update_interval = 0;
  pq_key_exchange_preference = [];
}

-- ===== src/Request/Connection.antt =====
-- From an HTTPS record to the calls that set a connection up: host_resolver_manager.cc,
-- url_request_http_job.cc and ssl_client_socket.cc together.
use kiwi_network_patches.Prelude.{◌≡◌, ap, Bool, true, false, some, List, ◌∷◌, ◌++◌}
use kiwi_network_patches.Prelude.Bytes.{Bytes, AreBytes, is_empty}
use kiwi_network_patches.Platform.Features.{FeatureList, use_dns_https_svcb}
use kiwi_network_patches.Platform.Bytestring.{Cbs, IsCbs}
use kiwi_network_patches.Platform.DnsProtocol.{DnsProtocol}
use kiwi_network_patches.Platform.ResolveContext.{ContextOps, IsContext}
use kiwi_network_patches.Platform.BoringSsl.{
  ctx_set1_groups_list, set_permute_extensions, Trace, SslEnv,
}
use kiwi_network_patches.Dns.Record.{HttpsRecordResult}
use kiwi_network_patches.Dns.Process.{process_https_record}
use kiwi_network_patches.Dns.Process.FirstValid.{FirstValid}
use kiwi_network_patches.Tls.Config.{SslConfig, balanced, configure_kiwi_ssl_profile}
use kiwi_network_patches.Tls.EchManager.{configure_ech}
use kiwi_network_patches.Tls.Connection.{groups, configure_kiwi_ssl}
use kiwi_network_patches.Tls.Connection.Profiles.{
  AllOn, key_update_calls, early_data_calls, common_calls, configure_kiwi_ssl-profile,
}
use kiwi_network_patches.Request.{configure_ssl_for_request}
use kiwi_network_patches.Request.Pipeline.{request_with, process-request}

module _ (features : FeatureList) (cbs : Cbs) (laws : IsCbs cbs) (d : DnsProtocol) where
  module _ {C K : Type 0} (ops : ContextOps C K) (context : IsContext ops) (nik : K) (c c' : C)
      (records : List Bytes) (r : HttpsRecordResult) (ssl_config : SslConfig) where
    -- The configuration of a request is the balanced profile with the record's ECH configuration.
    configure_ssl_for_request-profile :
        features use_dns_https_svcb ≡ true
        → AllOn features
        → FirstValid d records (some r)
        → is_empty r.ech_config ≡ false
        → process_https_record features cbs d ops nik (some records) c ≡ some c'
        → configure_ssl_for_request ops features ssl_config (some (request_with c' nik))
          ≡ configure_kiwi_ssl_profile
              (record ssl_config { ech_config_list = r.ech_config })
              balanced
    unfolding configure_ssl_for_request configure_kiwi_ssl_profile
    configure_ssl_for_request-profile svcb on first ne run =
        ap (λ x. configure_kiwi_ssl_profile (record ssl_config { ech_config_list = x }) balanced)
          (process-request features cbs laws d ops context nik c c' records r ssl_config svcb on.ech
            first ne run).0

    -- With every feature on, if the first valid record of a name has an ECH configuration of bytes
    -- and the groups are accepted, then a connection for a request at the record's key is set up by
    -- `ConfigureECH` on that very configuration, and behind it by the calls of the balanced profile.
    pub configure_kiwi_ssl-request :
        (env : SslEnv) (t : Trace)
        → features use_dns_https_svcb ≡ true
        → AllOn features
        → FirstValid d records (some r)
        → is_empty r.ech_config ≡ false
        → AreBytes r.ech_config
        → process_https_record features cbs d ops nik (some records) c ≡ some c'
        → ((t1 : Trace) → env.accepts t1 (ctx_set1_groups_list groups) ≡ true)
        → (b : Bool) × (t1 : Trace) × (configure_ech cbs env features r.ech_config t ≡ some (b, t1))
          × (configure_kiwi_ssl cbs env features
                (configure_ssl_for_request ops features ssl_config (some (request_with c' nik)))
                t
              ≡ some (
                  key_update_calls balanced
                  ++ (set_permute_extensions
                      ∷ (early_data_calls balanced ++ (common_calls ++ t1)))))
    configure_kiwi_ssl-request env t svcb on first ne bytes run takes =
        let (b, t1, ech, calls) =
          configure_kiwi_ssl-profile features cbs laws env
            (record ssl_config { ech_config_list = r.ech_config }) balanced t bytes on takes in
        (b, t1, ech, rw (configure_ssl_for_request-profile svcb on first ne run) calls)

-- ===== src/Network/Determined.antt =====
-- The calls determine the shared state: the relation of the steps against the interpreter of labels.
use kiwi_network_patches.Prelude.{
  ◌≡◌, refl, subst, ap, ◌∙◌, inl, inr, true, false, Option, List, [], ◌∷◌, All, Bool-cases,
}
use kiwi_network_patches.Prelude.Bytes.{Bytes, AreBytes}
use kiwi_network_patches.Platform.Features.{FeatureList, use_dns_https_svcb}
use kiwi_network_patches.Platform.Bytestring.{Cbs, IsCbs}
use kiwi_network_patches.Platform.DnsProtocol.{DnsProtocol}
use kiwi_network_patches.Platform.ResolveContext.{ContextOps}
use kiwi_network_patches.Platform.Float.{FloatOps}
use kiwi_network_patches.Platform.LruCache.{LruOps}
use kiwi_network_patches.Platform.BoringSsl.{SslEnv}
use kiwi_network_patches.Dns.Process.{process_https_record}
use kiwi_network_patches.Dns.Process.FirstValid.{
  FirstValid-total, stored, process_records-FirstValid,
}
use kiwi_network_patches.Retry.Cache.{CacheEntry}
use kiwi_network_patches.Tls.Config.{SslConfig}
use kiwi_network_patches.Network.{
  Network, Label, resolved, retried, reported, looked_up, dropped, migrated, all_reset, all_dropped,
  moved, switched, observed, adjusted, scripted, vpn_reported, Step, resolve, retry, report,
  look_up, drop_config, migrate, clear_monitor, clear_cache, move, switch, observe, adjust,
  check_script, report_vpn, Reach, here, next,
}
use kiwi_network_patches.Network.Perform.{BytesOf, perform, perform_all, Step-perform, Step-BytesOf}

-- Some settings of a connection.
abbrev some_settings : SslConfig
some_settings = record {
  ech_config_list = [];
  ech_grease_enabled = false;
  tls13_early_data_enabled = false;
  tls13_key_update_interval = 0;
  pq_key_exchange_preference = [];
}

-- A BoringSSL with this answer of the server.
abbrev answering : Option Bytes → SslEnv
answering config = record { accepts = λ t c. true; retry_configs = λ t. config }

module _ {X C N K W : Type 0} (features : FeatureList) (cbs : Cbs) (cbs_laws : IsCbs cbs)
    (d : DnsProtocol) (contexts : ContextOps X N) (caches : LruOps C K CacheEntry)
    (floats : FloatOps W) (dec : Discrete K) where
  -- No answer of the resolver is without a step.
  resolve-total :
      (s : Network X C K W) (nik : N) (records : List Bytes)
      → All AreBytes records
      → (u : Network X C K W) × Step features cbs d contexts caches floats dec s
          (resolved nik records)
          u
  unfolding process_https_record
  resolve-total s nik records bytes = elim (Bool-cases (features use_dns_https_svcb)) [
    | inr off ↦ (_, resolve nik records {c = s.context} bytes (rw (off, process_https_record)))
    | inl on ↦
        let (o, first) = FirstValid-total d records bytes in
        (
          _,
          resolve nik records {c = stored contexts nik s.context o} bytes (
              rw (on, process_https_record)
                (process_records-FirstValid features cbs cbs_laws d contexts nik s.context first)),
        )
  ]

  -- Every call is possible in every state.
  Step-total :
      (l : Label N K) (s : Network X C K W)
      → BytesOf l
      → (u : Network X C K W) × Step features cbs d contexts caches floats dec s l u
  Step-total (resolved nik records) s ok = resolve-total s nik records ok
  Step-total (retried now host config) s ok = (_, retry now host config (answering config) [] refl)
  Step-total (reported host success) s ok = (_, report host success)
  Step-total (looked_up now host current) s ok = (_, look_up now host current)
  Step-total (dropped host) s ok = (_, drop_config host)
  Step-total (migrated host) s ok = (_, migrate host)
  Step-total all_reset s ok = (_, clear_monitor)
  Step-total all_dropped s ok = (_, clear_cache)
  Step-total (moved type) s ok = (_, move type)
  Step-total (switched type) s ok = (_, switch type)
  Step-total (observed e) s ok = (_, observe e)
  Step-total (adjusted proxy_info) s ok = (_, adjust proxy_info some_settings)
  Step-total (scripted pac_script) s ok = (_, check_script pac_script)
  Step-total (vpn_reported success) s ok = (_, report_vpn success)

  perform-Step :
      (l : Label N K) (s : Network X C K W)
      → BytesOf l
      → Step features cbs d contexts caches floats dec s l
          (perform features cbs d contexts caches floats dec l s)
  perform-Step l s ok =
      let (u, step) = Step-total l s ok in
      subst (Step features cbs d contexts caches floats dec s l)
        (Step-perform features cbs d contexts caches floats dec step) step

  pub Reach-perform :
      {s u : Network X C K W} {labels : List (Label N K)}
      → Reach features cbs d contexts caches floats dec s labels u
      → All BytesOf labels × (u ≡ perform_all features cbs d contexts caches floats dec labels s)
  Reach-perform here = (tt, refl)
  Reach-perform (next {l = l} before step) =
      let (ok, same) = Reach-perform before in
      (
        (Step-BytesOf features cbs d contexts caches floats dec step, ok),
        Step-perform features cbs d contexts caches floats dec step
            ∙ ap (perform features cbs d contexts caches floats dec l) same,
      )

  pub perform_all-Reach :
      (labels : List (Label N K)) (s : Network X C K W)
      → All BytesOf labels
      → Reach features cbs d contexts caches floats dec s labels
          (perform_all features cbs d contexts caches floats dec labels s)
  perform_all-Reach [] s ok = here
  perform_all-Reach (l ∷ labels) s ok =
      next (perform_all-Reach labels s ok.1) (perform-Step l _ ok.0)

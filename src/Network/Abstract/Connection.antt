-- ===== src/Network/Abstract/Connection.antt =====
-- From the calls that were made to the calls that set a connection up: the whole program.
use kiwi_network_patches.Prelude.{
  ◌≡◌, refl, sym, ap, ◌∙◌, Bool, true, some, List, [], ◌∷◌, ◌++◌, Bool-cases, inl, inr,
}
use kiwi_network_patches.Prelude.Bytes.{Bytes, AreBytes, is_empty}
use kiwi_network_patches.Platform.Features.{FeatureList, use_dns_https_svcb, encrypted_client_hello}
use kiwi_network_patches.Platform.Bytestring.{Cbs, IsCbs}
use kiwi_network_patches.Platform.DnsProtocol.{DnsProtocol, IsAddressCheck}
use kiwi_network_patches.Platform.ResolveContext.{ContextOps, IsContext}
use kiwi_network_patches.Platform.Float.{FloatOps}
use kiwi_network_patches.Platform.LruCache.{LruOps, IsLru}
use kiwi_network_patches.Platform.BoringSsl.{
  ctx_set1_groups_list, set_permute_extensions, Trace, SslEnv,
}
use kiwi_network_patches.Dns.Record.{HttpsRecordResult}
use kiwi_network_patches.Dns.Parser.Shape.{Parses-shape}
use kiwi_network_patches.Dns.Process.FirstValid.{FirstValid, skip, found}
use kiwi_network_patches.Retry.Cache.{CacheEntry, max_entries}
use kiwi_network_patches.Tls.Config.{SslConfig, balanced, configure_kiwi_ssl_profile}
use kiwi_network_patches.Tls.EchManager.{configure_ech}
use kiwi_network_patches.Tls.Connection.{groups, configure_kiwi_ssl}
use kiwi_network_patches.Tls.Connection.Profiles.{
  AllOn, key_update_calls, early_data_calls, common_calls, configure_kiwi_ssl-profile,
}
use kiwi_network_patches.Request.{get_ech_config_for_request, configure_ssl_for_request}
use kiwi_network_patches.Request.Pipeline.{request_with}
use kiwi_network_patches.Android.{ConnectionType}
use kiwi_network_patches.Network.{Network, Label, start, Reach}
use kiwi_network_patches.Network.Abstract.{
  Latest, never, answered, other_key, no_record, no_config, no_answer,
}
use kiwi_network_patches.Network.Abstract.Refinement.{Reach-Refines}

is_empty-nil : (s : Bytes) → is_empty s ≡ true → s ≡ []
is_empty-nil [] h = refl
is_empty-nil (b ∷ s) h = absurd cc

module _ (d : DnsProtocol) (check : IsAddressCheck d) where
  FirstValid-bytes :
      {records : List Bytes} (r : HttpsRecordResult)
      → FirstValid d records (some r)
      → AreBytes r.ech_config
  FirstValid-bytes r (skip r' p v rest) = FirstValid-bytes r rest
  FirstValid-bytes r (found r' p v) = (Parses-shape d check p).0.ech_bytes

  Latest-bytes :
      {N K : Type 0} {j : N} {labels : List (Label N K)} {config : Bytes}
      → Latest d j labels config
      → AreBytes config
  Latest-bytes never = tt
  Latest-bytes (answered r e first ne) = FirstValid-bytes r first
  Latest-bytes (other_key ne h) = Latest-bytes h
  Latest-bytes (no_record first h) = Latest-bytes h
  Latest-bytes (no_config r first e h) = Latest-bytes h
  Latest-bytes (no_answer ok h) = Latest-bytes h

-- A configuration that comes without ECH gets what the context has for the request.
configure_ssl_for_request-context :
    {C K : Type 0} (ops : ContextOps C K) (features : FeatureList) (ssl_config : SslConfig) (c : C)
    (j : K)
    → features encrypted_client_hello ≡ true
    → ssl_config.ech_config_list ≡ []
    → configure_ssl_for_request ops features ssl_config (some (request_with c j))
      ≡ configure_kiwi_ssl_profile
          (record ssl_config { ech_config_list = ops.get_ech_config j c })
          balanced
unfolding configure_ssl_for_request get_ech_config_for_request
configure_ssl_for_request-context ops features ssl_config c j on fresh =
    elim (Bool-cases (is_empty (ops.get_ech_config j c))) [
      | inr e ↦ rw (on, e)
      | inl e ↦
          let same : ssl_config.ech_config_list ≡ ops.get_ech_config j c =
            fresh ∙ sym (is_empty-nil _ e) in
          rw (on, e)
            (ap
              (λ l. configure_kiwi_ssl_profile (record ssl_config { ech_config_list = l }) balanced)
              same)
    ]

module _ {X C N K W : Type 0} (features : FeatureList) (cbs : Cbs) (cbs_laws : IsCbs cbs)
    (d : DnsProtocol) (check : IsAddressCheck d) (contexts : ContextOps X N)
    (laws : IsContext contexts) (caches : LruOps C K CacheEntry) (floats : FloatOps W)
    (lru : IsLru caches max_entries) (dec : Discrete K) (dec_nik : Discrete N)
    (svcb : features use_dns_https_svcb ≡ true) (on : AllOn features) (at_first : ConnectionType)
    (context : X) (empty : (j : N) → is_empty (contexts.get_ech_config j context) ≡ true) where
  -- With every feature on and the groups accepted, in every state that the calls of the sources
  -- lead to, in any order, from a start without ECH configurations, a connection for a request at
  -- any key, whose configuration comes without ECH, is set up by `ConfigureECH` on the
  -- configuration of the latest answer for the key whose first valid record has one, or on the
  -- empty one if there was none, and behind it by exactly the calls of the balanced profile.
  -- Addresses of four and of sixteen bytes are taken to be valid.
  pub configure_kiwi_ssl-Latest :
      {u : Network X C K W} {labels : List (Label N K)}
      → Reach features cbs d contexts caches floats dec
          (start features cbs d contexts caches floats dec context at_first)
          labels
          u
      → (j : N) (ssl_config : SslConfig) (env : SslEnv) (t : Trace)
      → ssl_config.ech_config_list ≡ []
      → ((t1 : Trace) → env.accepts t1 (ctx_set1_groups_list groups) ≡ true)
      → (config : Bytes) × Latest d j labels config
        × (b : Bool) × (t1 : Trace) × (configure_ech cbs env features config t ≡ some (b, t1))
        × (configure_kiwi_ssl cbs env features
              (configure_ssl_for_request contexts features ssl_config
                (some (request_with u.context j)))
              t
            ≡ some (
                key_update_calls balanced
                ++ (set_permute_extensions ∷ (early_data_calls balanced ++ (common_calls ++ t1)))))
  configure_kiwi_ssl-Latest {u} reached j ssl_config env t fresh takes =
      let refined =
        Reach-Refines features cbs cbs_laws d contexts laws caches floats lru dec dec_nik svcb
          on.ech at_first context empty reached in
      let config = contexts.get_ech_config j u.context in
      let latest = refined.latest_config j in
      let (b, t1, ech, calls) =
        configure_kiwi_ssl-profile features cbs cbs_laws env
          (record ssl_config { ech_config_list = config }) balanced t (Latest-bytes d check latest)
          on takes in
      (
        config,
        latest,
        b,
        t1,
        ech,
        rw (configure_ssl_for_request-context contexts features ssl_config u.context j on.ech fresh)
            calls,
      )

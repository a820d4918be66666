-- ===== src/Request/Pipeline.antt =====
-- host_resolver_manager.cc and url_request_http_job.cc together: what a DNS record changes for a
-- request.
use kiwi_network_patches.Prelude.{
  ◌≡◌, ◌≢◌, ◌⊎◌, Bool, refl, sym, ◌∙◌, true, false, ◌||◌, Option, none, some, List, [], arith,
  Bool-cases, Option-cases, inl, inr, some-injective, ◌++◌, All,
}
use mathlib.Core.Bool.{true≢false}
use kiwi_network_patches.Prelude.Bytes.{Bytes, AreBytes, is_empty, text}
use kiwi_network_patches.Platform.Features.{FeatureList, encrypted_client_hello, use_dns_https_svcb}
use kiwi_network_patches.Platform.Bytestring.{Cbs, IsCbs}
use kiwi_network_patches.Platform.DnsProtocol.{DnsProtocol}
use kiwi_network_patches.Platform.ResolveContext.{ContextOps, IsContext}
use kiwi_network_patches.Dns.Record.{HttpsRecordResult}
use kiwi_network_patches.Dns.Process.{
  has_h3, store_ech, store_http3, store_hints, store_port, store_result, process_https_record,
}
use kiwi_network_patches.Dns.Process.Stores.{Lists, has_h3_iff}
use kiwi_network_patches.Dns.Process.FirstValid.{
  FirstValid, FirstValid-total, stored, process_records-FirstValid,
}
use kiwi_network_patches.Tls.Config.{SslConfig, configure_kiwi_ssl_profile}
use kiwi_network_patches.Request.{
  UrlRequest, get_ech_config_for_request, apply_ech_config_to_request,
  select_protocol_from_dns_result, configure_ssl_for_request,
}

-- A request with a resolve context, at a key.
abbrev pub request_with : {C K : Type 0} → C → K → UrlRequest C K
request_with c k = record {
  context = some (record { resolve_context = some c });
  network_anonymization_key = k;
}

module _ {C K : Type 0} (ops : ContextOps C K) (laws : IsContext ops) (nik : K)
    (r : HttpsRecordResult) where
  -- The later steps of `ProcessHttpsRecord` leave the ECH configurations alone.
  ech-store_hints :
      (j : K) (c : C) → ops.get_ech_config j (store_hints ops nik r c) ≡ ops.get_ech_config j c
  ech-store_hints j c = ground (arith, laws.ech_hints nik j (r.ipv4_hints ++ r.ipv6_hints) c)

  ech-store_http3 :
      (j : K) (c : C) → ops.get_ech_config j (store_http3 ops nik r c) ≡ ops.get_ech_config j c
  ech-store_http3 j c = ground (arith, laws.ech_http3 nik j true c)

  ech-store_port :
      (j : K) (c : C) → ops.get_ech_config j (store_port ops nik r c) ≡ ops.get_ech_config j c
  ech-store_port j c = elim (Option-cases r.port) [
    | inl e ↦ rw (e, store_port)
    | inr (p, e) ↦ rw (e, store_port) (laws.ech_port nik j p c)
  ]

  http3-store_ech :
      (j : K) (c : C) → ops.supports_http3 j (store_ech ops nik r c) ≡ ops.supports_http3 j c
  http3-store_ech j c = ground (arith, laws.http3_ech nik j r.ech_config c)

  http3-store_hints :
      (j : K) (c : C) → ops.supports_http3 j (store_hints ops nik r c) ≡ ops.supports_http3 j c
  http3-store_hints j c = ground (arith, laws.http3_hints nik j (r.ipv4_hints ++ r.ipv6_hints) c)

  http3-store_port :
      (j : K) (c : C) → ops.supports_http3 j (store_port ops nik r c) ≡ ops.supports_http3 j c
  http3-store_port j c = elim (Option-cases r.port) [
    | inl e ↦ rw (e, store_port)
    | inr (p, e) ↦ rw (e, store_port) (laws.http3_port nik j p c)
  ]

  pub ech-store_result :
      (j : K) (c : C)
      → ops.get_ech_config j (store_result ops nik r c)
        ≡ ops.get_ech_config j (store_ech ops nik r c)
  unfolding store_result
  ech-store_result j c =
      ech-store_port j _ ∙ ech-store_hints j _ ∙ ech-store_http3 j (store_ech ops nik r c)

  http3-store_result :
      (c : C)
      → ops.supports_http3 nik (store_result ops nik r c)
        ≡ (has_h3 r.alpn || ops.supports_http3 nik c)
  unfolding store_result
  http3-store_result c =
      http3-store_port nik _
      ∙ http3-store_hints nik _
      ∙ ground (arith, laws.http3_set nik true (store_ech ops nik r c), http3-store_ech nik c)

module _ {C K : Type 0} (ops : ContextOps C K) (laws : IsContext ops) (nik : K) where
  other-stored :
      (other : K) (c : C)
      → other ≢ nik
      → (o : Option HttpsRecordResult)
      → ops.get_ech_config other (stored ops nik c o) ≡ ops.get_ech_config other c
  other-stored other c ne none = refl
  other-stored other c ne (some r) =
      ech-store_result ops laws nik r other c
      ∙ ground (arith, laws.ech_set_ne nik other r.ech_config c ne)

or-cases :
    (a b : Bool)
    → (((a ≡ true) ⊎ (b ≡ true)) × ((a || b) ≡ true))
      ⊎ ((a ≡ false) × (b ≡ false) × ((a || b) ≡ false))
or-cases true b = inl (inl refl, refl)
or-cases false true = inl (inr refl, refl)
or-cases false false = inr (refl, refl, refl)

module _ (features : FeatureList) (cbs : Cbs) (laws : IsCbs cbs) (d : DnsProtocol) where
  module _ {C K : Type 0} (ops : ContextOps C K) (context : IsContext ops) where
    listed_or_known :
        {nik : K} (r : HttpsRecordResult) (c : C)
        → (has_h3 r.alpn ≡ true) ⊎ (ops.supports_http3 nik c ≡ true)
        → Lists (text "h3") r.alpn ⊎ (ops.supports_http3 nik c ≡ true)
    listed_or_known r c (inl e) = inl ((has_h3_iff r.alpn).0 e)
    listed_or_known r c (inr e) = inr e

    pub process-request :
        (nik : K) (c c' : C) (records : List Bytes) (r : HttpsRecordResult) (ssl_config : SslConfig)
        → features use_dns_https_svcb ≡ true
        → features encrypted_client_hello ≡ true
        → FirstValid d records (some r)
        → is_empty r.ech_config ≡ false
        → process_https_record features cbs d ops nik (some records) c ≡ some c'
        → ((configure_ssl_for_request ops features ssl_config
              (some (request_with c' nik))).ech_config_list
            ≡ r.ech_config)
          × (apply_ech_config_to_request ops features (request_with c' nik) ≡ some r.ech_config)
          × (((Lists (text "h3") r.alpn ⊎ (ops.supports_http3 nik c ≡ true))
                × (select_protocol_from_dns_result ops features (request_with c' nik) ≡ text "h3"))
              ⊎ (¬ Lists (text "h3") r.alpn
                  × (ops.supports_http3 nik c ≡ false)
                  × (select_protocol_from_dns_result ops features (request_with c' nik) ≡ [])))
    unfolding process_https_record configure_ssl_for_request get_ech_config_for_request
        apply_ech_config_to_request select_protocol_from_dns_result configure_kiwi_ssl_profile
    process-request nik c c' records r ssl_config svcb ech first ne h =
        let run = process_records-FirstValid features cbs laws d ops nik c first in
        let same : store_result ops nik r c ≡ c' =
          some-injective _ _ (sym run ∙ (rw (svcb, process_https_record) at h)) in
        let config : ops.get_ech_config nik c' ≡ r.ech_config = rw (← same) (
          ech-store_result ops context nik r nik c
          ∙ ground (arith, context.ech_set nik r.ech_config c)) in
        let http3 : ops.supports_http3 nik c' ≡ (has_h3 r.alpn || ops.supports_http3 nik c) =
          rw (← same) (http3-store_result ops context nik r c) in
        (
          rw (ech, config, ne),
          rw (ech, config, ne),
          elim (or-cases (has_h3 r.alpn) (ops.supports_http3 nik c)) [
            | inl (why, e) ↦ inl (listed_or_known r c why, rw (svcb, http3, e) refl)
            | inr (unlisted, unknown, e) ↦ inr (
              λ m. true≢false (sym ((has_h3_iff r.alpn).1 m) ∙ unlisted),
              unknown,
              rw (svcb, http3, e) refl,
            )
          ],
        )

    -- Whatever the records of a name are, a request at another key than theirs gets the ECH
    -- configuration that it got before.
    pub process-other_request :
        (nik other : K) (c c' : C) (records : List Bytes)
        → other ≢ nik
        → All AreBytes records
        → process_https_record features cbs d ops nik (some records) c ≡ some c'
        → get_ech_config_for_request ops features (request_with c' other)
          ≡ get_ech_config_for_request ops features (request_with c other)
    unfolding process_https_record get_ech_config_for_request
    process-other_request nik other c c' records ne bytes h =
        elim (Bool-cases (features use_dns_https_svcb)) [
          | inr off ↦
              let same : c ≡ c' = some-injective _ _ (rw (off, process_https_record) at h) in
              rw (← same)
          | inl on ↦
              let (o, first) = FirstValid-total d records bytes in
              let run = process_records-FirstValid features cbs laws d ops nik c first in
              let same : stored ops nik c o ≡ c' =
                some-injective _ _ (sym run ∙ (rw (on, process_https_record) at h)) in
              rw (← same, other-stored ops context nik other c ne o)
        ]

-- ===== src/Dns/Parser/Unknown.antt =====
-- host_resolver_manager.cc: parameters with keys that `Parse` does not know.
use kiwi_network_patches.Prelude.{
  ℕ, ◌+◌, ◌*◌, ◌<◌, ◌≡◌, ◌≢◌, refl, sym, ap, ◌∙◌, some, List, [], ◌∷◌, ◌++◌, All, All-append, foldl,
  arith,
}
use kiwi_network_patches.Prelude.Bytes.{Bytes}
use kiwi_network_patches.Prelude.Drain.{encode_all}
use kiwi_network_patches.Prelude.Tlv.{Tlv, encode_tlv, FitsWire, TlvEnd}
use kiwi_network_patches.Platform.Bytestring.{Cbs, IsCbs}
use kiwi_network_patches.Platform.DnsProtocol.{DnsProtocol}
use kiwi_network_patches.Dns.Record.{HttpsRecordResult}
use kiwi_network_patches.Dns.Params.{check_mandatory_params}
use kiwi_network_patches.Dns.Parser.{apply_param, parse}
use kiwi_network_patches.Dns.Parser.ServiceName.{encode_label, IsLabel, dotted}
use kiwi_network_patches.Dns.Parser.Reading.{act}
use kiwi_network_patches.Dns.Parser.Grammar.{accept, named, service_mode, parse_of_Parses}

-- A key that is none of the six.
pub record IsUnknown (d : DnsProtocol) (key : ℕ) : Type 0 where
  pub not_mandatory : key ≢ d.key_mandatory
  pub not_alpn : key ≢ d.key_alpn
  pub not_ech : key ≢ d.key_ech_config
  pub not_ipv4 : key ≢ d.key_ipv4_hint
  pub not_ipv6 : key ≢ d.key_ipv6_hint
  pub not_port : key ≢ d.key_port

module _ (d : DnsProtocol) (p : Tlv) (unknown : IsUnknown d p.tag) where
  act-unknown : (r : HttpsRecordResult) → act d r p ≡ r
  unfolding apply_param
  act-unknown r = ground (
    arith, unknown.not_mandatory, unknown.not_alpn, unknown.not_ech, unknown.not_ipv4,
    unknown.not_ipv6, unknown.not_port,
  )

  foldl-unknown :
      (before behind : List Tlv) (r : HttpsRecordResult)
      → foldl (act d) r (before ++ p ∷ behind) ≡ foldl (act d) r (before ++ behind)
  foldl-unknown [] behind r = ap (λ s. foldl (act d) s behind) (act-unknown r)
  foldl-unknown (q ∷ before) behind r = foldl-unknown before behind (act d r q)

  accept-unknown :
      (target : Bytes) (before behind : List Tlv)
      → accept d target (before ++ p ∷ behind) ≡ accept d target (before ++ behind)
  accept-unknown target before behind =
      ap (λ (r : HttpsRecordResult). record r { valid = check_mandatory_params r })
        (foldl-unknown before behind (named target))

module _ (cbs : Cbs) (laws : IsCbs cbs) (d : DnsProtocol) where
  -- A parameter with an unknown key, wherever it stands in a record in ServiceMode, does not change
  -- what `Parse` returns: it is as if the parameter were not there.
  pub parse-unknown :
      (hi lo : ℕ) (labels : List Bytes) (before behind : List Tlv) (p : Tlv) (tail : Bytes)
      → 0 < hi * 256 + lo
      → All IsLabel labels
      → All FitsWire before
      → All FitsWire behind
      → FitsWire p
      → IsUnknown d p.tag
      → TlvEnd tail
      → parse cbs d (
          hi
          ∷ lo
          ∷ encode_all encode_label labels (0 ∷ encode_all encode_tlv (before ++ p ∷ behind) tail))
        ≡ parse cbs d (
            hi
            ∷ lo
            ∷ encode_all encode_label labels (0 ∷ encode_all encode_tlv (before ++ behind) tail))
  parse-unknown hi lo labels before behind p tail pos name fits0 fits1 fits unknown end =
      let with_p = All-append FitsWire before (p ∷ behind) fits0 (fits, fits1) in
      let without_p = All-append FitsWire before behind fits0 fits1 in
      parse_of_Parses cbs laws d _ _
        (service_mode hi lo labels (before ++ p ∷ behind) tail pos name with_p end refl refl)
      ∙ ap some (accept-unknown d p unknown (dotted labels) before behind)
      ∙ sym (
          parse_of_Parses cbs laws d _ _
            (service_mode hi lo labels (before ++ behind) tail pos name without_p end refl refl))

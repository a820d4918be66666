-- ===== src/Dns/Parser/Print.antt =====
-- host_resolver_manager.cc: `Parse` reads back every result that is written out as a record.
use kiwi_network_patches.Prelude.{
  ℕ, ◌+◌, ◌*◌, ◌/◌, ◌%◌, ◌<◌, ◌≡◌, refl, ap, ◌∙◌, Bool, true, Option, none, some, List, [], ◌∷◌,
  All, foldl, arith, if◌then◌else◌,
}
use kiwi_network_patches.Prelude.Bytes.{Bytes, u16, eqs, text}
use kiwi_network_patches.Prelude.Drain.{encode_all}
use kiwi_network_patches.Prelude.Tlv.{Tlv, encode_tlv, FitsWire, few}
use kiwi_network_patches.Platform.Bytestring.{Cbs, IsCbs}
use kiwi_network_patches.Platform.DnsProtocol.{DnsProtocol, IsAddressCheck, HasDistinctKeys}
use kiwi_network_patches.Dns.Record.{HttpsRecordResult, fresh_result}
use kiwi_network_patches.Dns.Params.{parse_ech_config_param, all_supported, check_mandatory_params}
use kiwi_network_patches.Dns.Params.Alpn.{
  encode_protocol, FitsByte, nothing, non_empty, parse_alpn_param-encode,
}
use kiwi_network_patches.Dns.Params.Hints.{
  piece, parse_ipv4_hint_param-pieces, parse_ipv6_hint_param-pieces,
}
use kiwi_network_patches.Dns.Params.Fields.{HasFields, IsPort, IsProtocol}
use kiwi_network_patches.Dns.Parser.{parse}
use kiwi_network_patches.Dns.Parser.ServiceName.{encode_label, IsLabel, dotted}
use kiwi_network_patches.Dns.Parser.Reading.{act}
use kiwi_network_patches.Dns.Parser.Effects.{act-alpn, act-ech, act-ipv4, act-ipv6, act-port}
use kiwi_network_patches.Dns.Parser.Grammar.{named-target, service_mode, parse_of_Parses}

-- The parameters that say what the fields of a result are.
abbrev pub port_params : DnsProtocol → Option ℕ → List Tlv
port_params d none = []
port_params d (some n) = record { tag = d.key_port; value = u16 n } ∷ []

abbrev pub print_params : DnsProtocol → HttpsRecordResult → List Tlv
print_params d r =
    record { tag = d.key_alpn; value = encode_all encode_protocol r.alpn [] }
    ∷ record { tag = d.key_ech_config; value = r.ech_config }
    ∷ record { tag = d.key_ipv4_hint; value = encode_all piece r.ipv4_hints [] }
    ∷ record { tag = d.key_ipv6_hint; value = encode_all piece r.ipv6_hints [] }
    ∷ port_params d r.port

-- A record in ServiceMode with these parameters.
abbrev pub print : DnsProtocol → ℕ → ℕ → List Bytes → HttpsRecordResult → Bytes
print d hi lo labels r =
    hi ∷ lo ∷ encode_all encode_label labels (0 ∷ encode_all encode_tlv (print_params d r) [])

IsProtocol-non_empty : (ps : List Bytes) → All IsProtocol ps → (non_empty ps ≡ ps) × All FitsByte ps
IsProtocol-non_empty [] h = (refl, tt)
IsProtocol-non_empty ([] ∷ ps) h = absurd (omega (arith, h.0.0))
IsProtocol-non_empty ((b ∷ p) ∷ ps) h =
    let (same, fit) = IsProtocol-non_empty ps h.1 in (ap (◌∷◌ (b ∷ p)) same, (h.0.1, fit))

module _ (d : DnsProtocol) (check : IsAddressCheck d) (distinct : HasDistinctKeys d) where
  foldl-port_params :
      (o : Option ℕ) (s : HttpsRecordResult)
      → IsPort o
      → s.port ≡ none
      → foldl (act d) s (port_params d o) ≡ record s { port = o }
  foldl-port_params none s h e = ap (λ p. record s { port = p }) e
  foldl-port_params (some n) s h e =
      let same : n / 256 % 256 * 256 + n % 256 ≡ n = omega arith in
      act-port d distinct (record { tag = d.key_port; value = u16 n }) s refl ∙ rw same

  foldl-print_params :
      (r : HttpsRecordResult) (target : Bytes)
      → HasFields r
      → foldl (act d) (record fresh_result { alternative_service = target }) (print_params d r)
        ≡ record r { alternative_service = target; mandatory_keys = []; valid = fresh_result.valid }
  unfolding parse_ech_config_param
  foldl-print_params r target h =
      let (protocols, fit) = IsProtocol-non_empty r.alpn h.protocols in
      let s0 : HttpsRecordResult = record fresh_result { alternative_service = target } in
      let p1 : Tlv = record { tag = d.key_alpn; value = encode_all encode_protocol r.alpn [] } in
      let p2 : Tlv = record { tag = d.key_ech_config; value = r.ech_config } in
      let p3 : Tlv = record { tag = d.key_ipv4_hint; value = encode_all piece r.ipv4_hints [] } in
      let p4 : Tlv = record { tag = d.key_ipv6_hint; value = encode_all piece r.ipv6_hints [] } in
      let s1 : HttpsRecordResult = record s0 { alpn = r.alpn } in
      let s2 : HttpsRecordResult = record s1 { ech_config = r.ech_config } in
      let s3 : HttpsRecordResult = record s2 { ipv4_hints = r.ipv4_hints } in
      let s4 : HttpsRecordResult = record s3 { ipv6_hints = r.ipv6_hints } in
      let e1 : act d s0 p1 ≡ s1 =
        act-alpn d distinct p1 s0 refl
        ∙ parse_alpn_param-encode r.alpn [] s0 fit nothing
        ∙ ap (λ l. record s0 { alpn = l }) protocols in
      let e2 : act d s1 p2 ≡ s2 = act-ech d distinct p2 s1 refl in
      let e3 : act d s2 p3 ≡ s3 =
        act-ipv4 d distinct p3 s2 refl
        ∙ parse_ipv4_hint_param-pieces d check r.ipv4_hints [] s2 h.v4_addresses (omega arith) in
      let e4 : act d s3 p4 ≡ s4 =
        act-ipv6 d distinct p4 s3 refl
        ∙ parse_ipv6_hint_param-pieces d check r.ipv6_hints [] s3 h.v6_addresses (omega arith) in
      let ps : List Tlv = port_params d r.port in
      ap (λ s. foldl (act d) s (p2 ∷ p3 ∷ p4 ∷ ps)) e1
      ∙ ap (λ s. foldl (act d) s (p3 ∷ p4 ∷ ps)) e2
      ∙ ap (λ s. foldl (act d) s (p4 ∷ ps)) e3
      ∙ ap (λ s. foldl (act d) s ps) e4
      ∙ foldl-port_params r.port s4 h.port_fits refl

same-result :
    (r : HttpsRecordResult) (target : Bytes) (keys : List Bytes) (valid : Bool)
    → r.alternative_service ≡ target
    → r.mandatory_keys ≡ keys
    → r.valid ≡ valid
    → record r { alternative_service = target; mandatory_keys = keys; valid = valid } ≡ r
same-result r target keys valid e0 e1 e2 = rw (← e0, ← e1, ← e2)

module _ (cbs : Cbs) (laws : IsCbs cbs) (d : DnsProtocol) (check : IsAddressCheck d)
    (distinct : HasDistinctKeys d) where
  -- Every valid result with fields in their ranges, without mandatory keys, whose target is the
  -- dotted name of the labels, or none for the root, is what `Parse` returns for the record in
  -- ServiceMode that is written from it, as long as its values fit their length fields. The numbers
  -- of the keys differ, and addresses of four and of sixteen bytes are taken to be valid.
  pub parse-print :
      (hi lo : ℕ) (labels : List Bytes) (r : HttpsRecordResult)
      → 0 < hi * 256 + lo
      → All IsLabel labels
      → HasFields r
      → All FitsWire (print_params d r)
      → r.alternative_service ≡ (if eqs (dotted labels) (text ".") then [] else dotted labels)
      → r.mandatory_keys ≡ []
      → r.valid ≡ true
      → parse cbs d (print d hi lo labels r) ≡ some r
  unfolding check_mandatory_params all_supported
  parse-print hi lo labels r pos names h fits target keys valid =
      let params = print_params d r in
      let fields =
        foldl-print_params d check distinct r
          (if eqs (dotted labels) (text ".") then [] else dotted labels) h in
      parse_of_Parses cbs laws d _ _
        (service_mode hi lo labels params [] pos names fits (few (omega arith)) refl refl)
      ∙ rw (named-target (dotted labels), fields)
          (ap some (same-result r _ [] true target keys valid))

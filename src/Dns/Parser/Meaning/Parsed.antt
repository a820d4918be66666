-- ===== src/Dns/Parser/Meaning/Parsed.antt =====
-- host_resolver_manager.cc: the result of `Parse` means what the SvcParams of a record in ServiceMode
-- say.
use kiwi_network_patches.Prelude.{
  ℕ, ◌+◌, ◌*◌, ◌<◌, ◌≡◌, refl, ◌∙◌, some, List, [], ◌∷◌, All, foldl, arith, if◌then◌else◌,
}
use kiwi_network_patches.Prelude.Bytes.{Bytes, eqs, text}
use kiwi_network_patches.Prelude.Drain.{encode_all}
use kiwi_network_patches.Prelude.Tlv.{Tlv, encode_tlv, FitsWire, TlvEnd}
use kiwi_network_patches.Platform.Bytestring.{Cbs, IsCbs}
use kiwi_network_patches.Platform.DnsProtocol.{DnsProtocol, IsAddressCheck, HasDistinctKeys}
use kiwi_network_patches.Dns.Record.{HttpsRecordResult, fresh_result}
use kiwi_network_patches.Dns.Params.{check_mandatory_params}
use kiwi_network_patches.Dns.Params.Mandatory.{contains-put_keys, all_supported-put_keys}
use kiwi_network_patches.Dns.Parser.{parse}
use kiwi_network_patches.Dns.Parser.ServiceName.{encode_label, IsLabel, dotted}
use kiwi_network_patches.Dns.Parser.Reading.{act}
use kiwi_network_patches.Dns.Parser.Grammar.{named-target, accept, service_mode, parse_of_Parses}
use kiwi_network_patches.Dns.Parser.Meaning.Unique.{view, view-Means}
use kiwi_network_patches.Dns.Parser.Meaning.{Means}
use kiwi_network_patches.Dns.Parser.Meaning.PerField.{
  ech_config-foldl, port-foldl, alpn-foldl, ipv4_hints-foldl, ipv6_hints-foldl,
  mandatory_keys-foldl, alternative_service-foldl,
}

-- The result before the parameters, field by field.
abbrev with_target_name : Bytes → HttpsRecordResult
with_target_name target = record fresh_result {
  alternative_service = if eqs target (text ".") then [] else target;
}

module _ (d : DnsProtocol) (check : IsAddressCheck d) (distinct : HasDistinctKeys d)
    (target : Bytes) (ps : List Tlv) (ok : All FitsWire ps) where
  foldl-act-Means :
      let r = foldl (act d) (with_target_name target) ps in
      Means d target ps (record r { valid = check_mandatory_params r })
  unfolding check_mandatory_params
  foldl-act-Means =
      let r = with_target_name target in
      let (protocols, alpn, e0) = alpn-foldl d check distinct ps r ok in
      let (v4, ipv4, e1) = ipv4_hints-foldl d check distinct ps r ok in
      let (v6, ipv6, e2) = ipv6_hints-foldl d check distinct ps r ok in
      let (names, keys, e3) = mandatory_keys-foldl d check distinct ps r ok in
      record {
        target_name = alternative_service-foldl d ps r;
        ech_config = ech_config-foldl d check distinct ps r ok;
        port = port-foldl d check distinct ps r ok;
        alpn = rw e0 alpn;
        ipv4_hints = rw e1 ipv4;
        ipv6_hints = rw e2 ipv6;
        valid = (
          names,
          keys,
          λ k. rw e3 (contains-put_keys k names [] ∙ ground arith),
          rw e3 (all_supported-put_keys names [] ∙ ground arith),
        );
      }

  pub accept-Means : Means d target ps (accept d target ps)
  accept-Means = rw (named-target target) foldl-act-Means

module _ (cbs : Cbs) (laws : IsCbs cbs) (d : DnsProtocol) (check : IsAddressCheck d)
    (distinct : HasDistinctKeys d) where
  -- `Parse` returns on every record in ServiceMode, and what it returns means what the SvcParams
  -- say: the ECH configuration is the last one given, the port is that of the last value with two
  -- bytes, the protocols and the hints are those of all values of their keys together, in order,
  -- whatever else stands between them, the target is the dotted name if it is not the root, and the
  -- result is valid exactly if every key that a `mandatory` value lists is a supported one. Any
  -- other result with this meaning is the same, with its keys as a set. The
  -- numbers of the keys differ, and addresses of four and of sixteen bytes are taken to be valid.
  pub parse-Means :
      (hi lo : ℕ) (labels : List Bytes) (ps : List Tlv) (tail : Bytes)
      → 0 < hi * 256 + lo
      → All IsLabel labels
      → All FitsWire ps
      → TlvEnd tail
      → (r : HttpsRecordResult) × (parse cbs d
            (hi ∷ lo ∷ encode_all encode_label labels (0 ∷ encode_all encode_tlv ps tail))
          ≡ some r)
        × Means d (dotted labels) ps r
        × ((r' : HttpsRecordResult) → Means d (dotted labels) ps r' → view r ≡ view r')
  parse-Means hi lo labels ps tail pos names fits end =
      let means = accept-Means d check distinct (dotted labels) ps fits in
      (
        accept d (dotted labels) ps,
        parse_of_Parses cbs laws d _ _
            (service_mode hi lo labels ps tail pos names fits end refl refl),
        means,
        λ r' means'. view-Means d (dotted labels) ps _ r' means means',
      )

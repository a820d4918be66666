-- ===== src/Dns/Parser/RoundTrip.antt =====
-- host_resolver_manager.cc: `Parse` reads back a record that was written from its fields.
use kiwi_network_patches.Prelude.{
  ℕ, ◌+◌, ◌*◌, ◌/◌, ◌%◌, ◌<◌, ◌≡◌, refl, ◌∙◌, true, some, List, [], ◌∷◌, All, foldl, arith,
}
use kiwi_network_patches.Prelude.Bytes.{Bytes, u16}
use kiwi_network_patches.Prelude.Drain.{encode_all}
use kiwi_network_patches.Prelude.Tlv.{Tlv, encode_tlv, FitsWire, few}
use kiwi_network_patches.Platform.Bytestring.{Cbs, IsCbs}
use kiwi_network_patches.Platform.DnsProtocol.{DnsProtocol, HasDistinctKeys}
use kiwi_network_patches.Dns.Record.{HttpsRecordResult}
use kiwi_network_patches.Dns.Params.{
  parse_alpn_param, parse_ech_config_param, parse_port_param, all_supported, check_mandatory_params,
}
use kiwi_network_patches.Dns.Params.Alpn.{
  encode_protocol, FitsByte, nothing, non_empty, parse_alpn_param-encode,
}
use kiwi_network_patches.Dns.Parser.{apply_param, parse}
use kiwi_network_patches.Dns.Parser.ServiceName.{encode_label, IsLabel, dotted}
use kiwi_network_patches.Dns.Parser.Reading.{act}
use kiwi_network_patches.Dns.Parser.Grammar.{named, service_mode, parse_of_Parses}

module _ (d : DnsProtocol) (distinct : HasDistinctKeys d) where
  apply_param-alpn :
      (v : Bytes) (r : HttpsRecordResult) → apply_param d d.key_alpn v r ≡ parse_alpn_param v r
  unfolding apply_param
  apply_param-alpn v r = ground (arith, distinct.alpn_mandatory)

  apply_param-ech :
      (v : Bytes) (r : HttpsRecordResult)
      → apply_param d d.key_ech_config v r ≡ record r { ech_config = v }
  unfolding apply_param parse_ech_config_param
  apply_param-ech v r = ground (arith, distinct.ech_mandatory, distinct.ech_alpn)

  apply_param-port :
      (n : ℕ) (r : HttpsRecordResult)
      → n < 65536
      → apply_param d d.key_port (u16 n) r ≡ record r { port = some n }
  unfolding apply_param parse_port_param
  apply_param-port n r h =
      let same : n / 256 % 256 * 256 + n % 256 ≡ n = omega arith in
      rw (← same) (
        ground (
          arith, distinct.port_mandatory, distinct.port_alpn, distinct.port_ech, distinct.port_ipv4,
          distinct.port_ipv6,
        ))

-- The parameters of a record with protocols, an ECH configuration and a port.
abbrev pub params_of : DnsProtocol → List Bytes → Bytes → ℕ → List Tlv
params_of d protocols config port =
    record { tag = d.key_alpn; value = encode_all encode_protocol protocols [] }
    ∷ record { tag = d.key_ech_config; value = config }
    ∷ record { tag = d.key_port; value = u16 port }
    ∷ []

named-alpn : (target : Bytes) → (named target).alpn ≡ []
named-alpn target = ground arith

named-mandatory_keys : (target : Bytes) → (named target).mandatory_keys ≡ []
named-mandatory_keys target = ground arith

module _ (cbs : Cbs) (laws : IsCbs cbs) (d : DnsProtocol) (distinct : HasDistinctKeys d) where
  -- The fields behind the three parameters.
  foldl-params_of :
      (target : Bytes) (protocols : List Bytes) (config : Bytes) (port : ℕ)
      → All FitsByte protocols
      → port < 65536
      → foldl (act d) (named target) (params_of d protocols config port) ≡ record (named target) {
        alpn = non_empty protocols;
        ech_config = config;
        port = some port;
      }
  foldl-params_of target protocols config port ok fits =
      let start = named target in
      let alpn : parse_alpn_param (encode_all encode_protocol protocols []) start
          ≡ record start { alpn = non_empty protocols } =
        parse_alpn_param-encode protocols [] start ok nothing ∙ rw (named-alpn target) refl in
      rw (apply_param-alpn d distinct, alpn, apply_param-ech d distinct)
        (apply_param-port d distinct port _ fits)

  -- A record in ServiceMode that is written from a target name, protocols, an ECH configuration
  -- and a port is valid, and is read back as these: only empty protocols are left out, and the
  -- root name stands for no target. The parts have to fit their length fields.
  pub parse-params_of :
      (hi lo : ℕ) (labels protocols : List Bytes) (config : Bytes) (port : ℕ)
      → 0 < hi * 256 + lo
      → All IsLabel labels
      → All FitsByte protocols
      → port < 65536
      → All FitsWire (params_of d protocols config port)
      → parse cbs d (
          hi
          ∷ lo
          ∷ encode_all encode_label labels
              (0 ∷ encode_all encode_tlv (params_of d protocols config port) []))
        ≡ some (record (named (dotted labels)) {
          alpn = non_empty protocols;
          ech_config = config;
          port = some port;
          valid = true;
        })
  unfolding check_mandatory_params all_supported
  parse-params_of hi lo labels protocols config port pos name fit small wire =
      let fields = foldl-params_of (dotted labels) protocols config port fit small in
      parse_of_Parses cbs laws d _ _ (
        service_mode hi lo labels (params_of d protocols config port) [] pos name wire
          (few (omega arith)) refl refl)
      ∙ rw (fields, named-mandatory_keys) refl

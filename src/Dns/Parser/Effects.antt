-- ===== src/Dns/Parser/Effects.antt =====
-- host_resolver_manager.cc: what the `switch` of `ParseOneParam` does to each field.
use kiwi_network_patches.Prelude.{ℕ, ◌+◌, ◌*◌, ◌≡◌, ◌≢◌, refl, Option, some, [], ◌∷◌, arith}
use kiwi_network_patches.Prelude.Bytes.{Bytes}
use kiwi_network_patches.Prelude.Tlv.{Tlv}
use kiwi_network_patches.Platform.DnsProtocol.{DnsProtocol, HasDistinctKeys}
use kiwi_network_patches.Dns.Record.{HttpsRecordResult}
use kiwi_network_patches.Dns.Params.{
  parse_mandatory_param, parse_alpn_param, parse_ech_config_param, parse_ipv4_hint_param,
  parse_ipv6_hint_param, parse_port_param,
}
use kiwi_network_patches.Dns.Parser.{apply_param}
use kiwi_network_patches.Dns.Parser.Reading.{act}

-- The port behind one more value: its first two bytes, if it has two.
abbrev pub next_port : Option ℕ → Bytes → Option ℕ
next_port port (hi ∷ lo ∷ _) = some (hi * 256 + lo)
next_port port _ = port

parse_port_param-next_port :
    (v : Bytes) (r : HttpsRecordResult)
    → parse_port_param v r ≡ record r { port = next_port r.port v }
unfolding parse_port_param
parse_port_param-next_port [] r = refl
parse_port_param-next_port (a ∷ []) r = refl
parse_port_param-next_port (a ∷ b ∷ v) r = refl

module _ (d : DnsProtocol) (distinct : HasDistinctKeys d) (p : Tlv) (r : HttpsRecordResult) where
  pub act-mandatory : p.tag ≡ d.key_mandatory → act d r p ≡ parse_mandatory_param d p.value r
  unfolding apply_param
  act-mandatory e = ground arith

  pub act-alpn : p.tag ≡ d.key_alpn → act d r p ≡ parse_alpn_param p.value r
  unfolding apply_param
  act-alpn e = ground (arith, distinct.alpn_mandatory)

  pub act-ech : p.tag ≡ d.key_ech_config → act d r p ≡ parse_ech_config_param p.value r
  unfolding apply_param
  act-ech e = ground (arith, distinct.ech_mandatory, distinct.ech_alpn)

  pub act-ipv4 : p.tag ≡ d.key_ipv4_hint → act d r p ≡ parse_ipv4_hint_param d p.value r
  unfolding apply_param
  act-ipv4 e = ground (arith, distinct.ipv4_mandatory, distinct.ipv4_alpn, distinct.ipv4_ech)

  pub act-ipv6 : p.tag ≡ d.key_ipv6_hint → act d r p ≡ parse_ipv6_hint_param d p.value r
  unfolding apply_param
  act-ipv6 e =
      ground
        (arith, distinct.ipv6_mandatory, distinct.ipv6_alpn, distinct.ipv6_ech, distinct.ipv6_ipv4)

  pub act-port : p.tag ≡ d.key_port → act d r p ≡ record r { port = next_port r.port p.value }
  unfolding apply_param
  act-port e = ground (
    arith,
    distinct.port_mandatory,
    distinct.port_alpn,
    distinct.port_ech,
    distinct.port_ipv4,
    distinct.port_ipv6,
    parse_port_param-next_port p.value r,
  )

-- A parameter with another key does not change a field.
module _ (d : DnsProtocol) (p : Tlv) (r : HttpsRecordResult) where
  pub mandatory_keys-act : p.tag ≢ d.key_mandatory → (act d r p).mandatory_keys ≡ r.mandatory_keys
  unfolding apply_param parse_alpn_param parse_ech_config_param parse_ipv4_hint_param
      parse_ipv6_hint_param
  mandatory_keys-act h = ground (arith, parse_port_param-next_port p.value r)

  pub alpn-act : p.tag ≢ d.key_alpn → (act d r p).alpn ≡ r.alpn
  unfolding apply_param parse_mandatory_param parse_ech_config_param parse_ipv4_hint_param
      parse_ipv6_hint_param
  alpn-act h = ground (arith, parse_port_param-next_port p.value r)

  pub ech_config-act : p.tag ≢ d.key_ech_config → (act d r p).ech_config ≡ r.ech_config
  unfolding apply_param parse_mandatory_param parse_alpn_param parse_ipv4_hint_param
      parse_ipv6_hint_param
  ech_config-act h = ground (arith, parse_port_param-next_port p.value r)

  pub ipv4_hints-act : p.tag ≢ d.key_ipv4_hint → (act d r p).ipv4_hints ≡ r.ipv4_hints
  unfolding apply_param parse_mandatory_param parse_alpn_param parse_ech_config_param
      parse_ipv6_hint_param
  ipv4_hints-act h = ground (arith, parse_port_param-next_port p.value r)

  pub ipv6_hints-act : p.tag ≢ d.key_ipv6_hint → (act d r p).ipv6_hints ≡ r.ipv6_hints
  unfolding apply_param parse_mandatory_param parse_alpn_param parse_ech_config_param
      parse_ipv4_hint_param
  ipv6_hints-act h = ground (arith, parse_port_param-next_port p.value r)

  pub port-act : p.tag ≢ d.key_port → (act d r p).port ≡ r.port
  unfolding apply_param parse_mandatory_param parse_alpn_param parse_ech_config_param
      parse_ipv4_hint_param parse_ipv6_hint_param
  port-act h = ground arith

  pub alternative_service-act : (act d r p).alternative_service ≡ r.alternative_service
  unfolding apply_param parse_mandatory_param parse_alpn_param parse_ech_config_param
      parse_ipv4_hint_param parse_ipv6_hint_param
  alternative_service-act = ground (arith, parse_port_param-next_port p.value r)

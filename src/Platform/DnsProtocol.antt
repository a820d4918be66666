-- ===== src/Platform/DnsProtocol.antt =====
-- Chromium's `net/dns/public/dns_protocol.h` and `net/base/ip_address.h`, as far as the record
-- parser uses them: the numbers of the SvcParam keys, their names, and the validity of an address.
use kiwi_network_patches.Prelude.{ℕ, ◌≡◌, ◌≢◌, Bool, true, length}
use kiwi_network_patches.Prelude.Bytes.{Bytes}

pub record DnsProtocol : Type 0 where
  pub key_mandatory : ℕ
  pub key_alpn : ℕ
  pub key_ech_config : ℕ
  pub key_ipv4_hint : ℕ
  pub key_ipv6_hint : ℕ
  pub key_port : ℕ
  pub key_to_string : ℕ → Bytes
  -- `IPAddress(data, size).IsValid()`; an address is the list of its bytes.
  pub address_is_valid : Bytes → Bool

-- An address of four or of sixteen bytes is valid.
pub record IsAddressCheck (d : DnsProtocol) : Type 0 where
  pub valid_v4 : (a : Bytes) → length a ≡ 4 → d.address_is_valid a ≡ true
  pub valid_v6 : (a : Bytes) → length a ≡ 16 → d.address_is_valid a ≡ true

-- The numbers of the keys differ.
pub record HasDistinctKeys (d : DnsProtocol) : Type 0 where
  pub alpn_mandatory : d.key_alpn ≢ d.key_mandatory
  pub ech_mandatory : d.key_ech_config ≢ d.key_mandatory
  pub ech_alpn : d.key_ech_config ≢ d.key_alpn
  pub ipv4_mandatory : d.key_ipv4_hint ≢ d.key_mandatory
  pub ipv4_alpn : d.key_ipv4_hint ≢ d.key_alpn
  pub ipv4_ech : d.key_ipv4_hint ≢ d.key_ech_config
  pub ipv6_mandatory : d.key_ipv6_hint ≢ d.key_mandatory
  pub ipv6_alpn : d.key_ipv6_hint ≢ d.key_alpn
  pub ipv6_ech : d.key_ipv6_hint ≢ d.key_ech_config
  pub ipv6_ipv4 : d.key_ipv6_hint ≢ d.key_ipv4_hint
  pub port_mandatory : d.key_port ≢ d.key_mandatory
  pub port_alpn : d.key_port ≢ d.key_alpn
  pub port_ech : d.key_port ≢ d.key_ech_config
  pub port_ipv4 : d.key_port ≢ d.key_ipv4_hint
  pub port_ipv6 : d.key_port ≢ d.key_ipv6_hint

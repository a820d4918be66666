-- ===== src/Dns/Params.antt =====
-- host_resolver_manager.cc: the handlers of the SvcParams, `ParseMandatoryParam` up to
-- `ParsePortParam`, and `CheckMandatoryParams`. Each loop is given more fuel than the value has
-- bytes; it would leave its list as it was if that ran out.
pub mod Alpn
pub mod Hints
pub mod Mandatory
pub mod Fields
pub mod KeySet
use kiwi_network_patches.Prelude.{
  ℕ, suc, ◌+◌, ◌*◌, Bool, true, false, not, Option, none, some, List, [], ◌∷◌, ◌++◌, length, ltb,
  get_or, if◌then◌else◌,
}
use kiwi_network_patches.Prelude.Bytes.{Bytes, eqs, is_empty, byte_at, substr, text}
use kiwi_network_patches.Prelude.Scan.{scan}
use kiwi_network_patches.Platform.DnsProtocol.{DnsProtocol}
use kiwi_network_patches.Dns.Record.{HttpsRecordResult}

abbrev pub contains : List Bytes → Bytes → Bool
contains [] k = false
contains (x ∷ xs) k = if eqs x k then true else contains xs k

-- `std::set::insert`.
abbrev pub insert_key : Bytes → List Bytes → List Bytes
insert_key k keys = if contains keys k then keys else k ∷ keys

-- The test and the body of the loop in `ParseAlpnParam`, over `offset` and `result->alpn`.
abbrev pub alpn_test : Bytes → ℕ → Bool
alpn_test value offset = ltb offset (length value)

abbrev pub alpn_body : Bytes → ℕ → List Bytes → Option (ℕ × List Bytes)
alpn_body value offset alpn =
    let len = byte_at value offset in
    let protocol = substr value (offset + 1) len in
    if ltb (length value) (offset + 1 + len)
    then none
    else some (offset + (1 + len), if not (is_empty protocol) then alpn ++ protocol ∷ [] else alpn)

unfoldable pub parse_alpn_param : Bytes → HttpsRecordResult → HttpsRecordResult
parse_alpn_param value r = record r {
  alpn = get_or (scan (alpn_test value) (alpn_body value) (suc (length value)) 0 r.alpn) r.alpn;
}

unfoldable pub parse_ech_config_param : Bytes → HttpsRecordResult → HttpsRecordResult
parse_ech_config_param value r = record r { ech_config = value }

-- `if (value.size() >= 2)`: a uint16_t from the first two bytes.
unfoldable pub parse_port_param : Bytes → HttpsRecordResult → HttpsRecordResult
parse_port_param (hi ∷ lo ∷ _) r = record r { port = some (hi * 256 + lo) }
parse_port_param _ r = r

-- The test `i + last < value.size()` of the two hint loops; an address has `suc last` bytes.
abbrev pub hint_test : ℕ → Bytes → ℕ → Bool
hint_test last value i = ltb (i + last) (length value)

module _ (d : DnsProtocol) where
  abbrev pub hint_body : ℕ → Bytes → ℕ → List Bytes → Option (ℕ × List Bytes)
  hint_body last value i hints =
      let addr = substr value i (suc last) in
      some (i + suc last, if d.address_is_valid addr then hints ++ addr ∷ [] else hints)

  unfoldable pub parse_ipv4_hint_param : Bytes → HttpsRecordResult → HttpsRecordResult
  parse_ipv4_hint_param value r = record r {
    ipv4_hints =
        get_or (scan (hint_test 3 value) (hint_body 3 value) (suc (length value)) 0 r.ipv4_hints)
          r.ipv4_hints;
  }

  unfoldable pub parse_ipv6_hint_param : Bytes → HttpsRecordResult → HttpsRecordResult
  parse_ipv6_hint_param value r = record r {
    ipv6_hints =
        get_or (scan (hint_test 15 value) (hint_body 15 value) (suc (length value)) 0 r.ipv6_hints)
          r.ipv6_hints;
  }

  -- The loop of `ParseMandatoryParam` takes two bytes a key.
  abbrev pub mandatory_body : Bytes → ℕ → List Bytes → Option (ℕ × List Bytes)
  mandatory_body value i keys =
      let key = byte_at value i * 256 + byte_at value (i + 1) in
      some (i + 2, insert_key (d.key_to_string key) keys)

  unfoldable pub parse_mandatory_param : Bytes → HttpsRecordResult → HttpsRecordResult
  parse_mandatory_param value r = record r {
    mandatory_keys =
        get_or
          (scan (hint_test 1 value) (mandatory_body value) (suc (length value)) 0 r.mandatory_keys)
          r.mandatory_keys;
  }

unfoldable pub supported_keys : List Bytes
supported_keys =
    text "alpn" ∷ text "echconfig" ∷ text "ipv4hint" ∷ text "ipv6hint" ∷ text "port" ∷ []

-- The loop of `CheckMandatoryParams` over the set.
unfoldable pub all_supported : List Bytes → Bool
all_supported [] = true
all_supported (key ∷ keys) =
    let rest = all_supported keys in if not (contains supported_keys key) then false else rest

unfoldable pub check_mandatory_params : HttpsRecordResult → Bool
unfolding all_supported
check_mandatory_params r = all_supported r.mandatory_keys

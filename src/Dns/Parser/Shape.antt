-- ===== src/Dns/Parser/Shape.antt =====
-- host_resolver_manager.cc: the shape of every result that `Parse` returns.
use kiwi_network_patches.Prelude.{
  ◌≡◌, sym, inl, inr, Bool-cases, ◌==◌, true, not, some, List, [], ◌∷◌, All, foldl, if_keeps,
}
use mathlib.Core.List.{Memᴰ}
use mathlib.Core.Bool.{false≢true}
use kiwi_network_patches.Prelude.Bytes.{Bytes, AreBytes, eqs, eqs_iff, text}
use kiwi_network_patches.Prelude.Tlv.{Tlv, FitsWire}
use kiwi_network_patches.Platform.Bytestring.{Cbs, IsCbs}
use kiwi_network_patches.Platform.DnsProtocol.{DnsProtocol, IsAddressCheck}
use kiwi_network_patches.Dns.Record.{HttpsRecordResult, fresh_result}
use kiwi_network_patches.Dns.Params.{
  parse_ech_config_param, contains, supported_keys, all_supported, check_mandatory_params,
}
use kiwi_network_patches.Dns.Params.Fields.{
  HasFields, with_ech, with_valid, with_target, parse_alpn_param-HasFields,
  parse_ipv4_hint_param-HasFields, parse_ipv6_hint_param-HasFields, parse_mandatory_param-HasFields,
  parse_port_param-HasFields, fresh_result-HasFields,
}
use kiwi_network_patches.Dns.Parser.{apply_param, parse}
use kiwi_network_patches.Dns.Parser.ServiceName.{dotted}
use kiwi_network_patches.Dns.Parser.Reading.{act}
use kiwi_network_patches.Dns.Parser.Grammar.{
  named, accept, Parses, too_short, alias_mode, bad_name, unfinished_name, service_mode,
  Parses-total, parse_of_Parses,
}

module _ (d : DnsProtocol) (check : IsAddressCheck d) where
  act-HasFields :
      (p : Tlv) (r : HttpsRecordResult) → FitsWire p → HasFields r → HasFields (act d r p)
  unfolding apply_param parse_ech_config_param
  act-HasFields p r ok h =
      if_keeps HasFields (p.tag == d.key_mandatory)
        (parse_mandatory_param-HasFields d check p.value ok.value_bytes r h)
        (if_keeps HasFields (p.tag == d.key_alpn)
          (parse_alpn_param-HasFields d check p.value ok.value_bytes r h)
          (if_keeps HasFields (p.tag == d.key_ech_config)
            (with_ech r h p.value ok.length_fits ok.value_bytes)
            (if_keeps HasFields (p.tag == d.key_ipv4_hint)
              (parse_ipv4_hint_param-HasFields d check p.value ok.value_bytes r h)
              (if_keeps HasFields (p.tag == d.key_ipv6_hint)
                (parse_ipv6_hint_param-HasFields d check p.value ok.value_bytes r h)
                (if_keeps HasFields (p.tag == d.key_port)
                  (parse_port_param-HasFields p.value r ok.value_bytes h) h)))))

  foldl-act-HasFields :
      (ps : List Tlv) (r : HttpsRecordResult)
      → All FitsWire ps
      → HasFields r
      → HasFields (foldl (act d) r ps)
  foldl-act-HasFields [] r ok h = h
  foldl-act-HasFields (p ∷ ps) r ok h =
      foldl-act-HasFields ps (act d r p) ok.1 (act-HasFields p r ok.0 h)

named-HasFields : (target : Bytes) → HasFields (named target)
named-HasFields target =
    if_keeps HasFields (not (eqs target (text ".")))
      (with_target fresh_result fresh_result-HasFields target) fresh_result-HasFields

-- The parameters that the parser knows, besides the list of mandatory ones itself.
abbrev pub known_keys : List Bytes
known_keys = text "alpn" ∷ text "echconfig" ∷ text "ipv4hint" ∷ text "ipv6hint" ∷ text "port" ∷ []

-- A result that counts as valid names only known keys as mandatory.
abbrev pub IsChecked : HttpsRecordResult → Type 0
IsChecked r = r.valid ≡ true → All (λ k. Memᴰ k known_keys) r.mandatory_keys

contains-Memᴰ : (xs : List Bytes) (k : Bytes) → contains xs k ≡ true → Memᴰ k xs
contains-Memᴰ [] k h = absurd (false≢true h)
contains-Memᴰ (x ∷ xs) k h = elim (Bool-cases (eqs x k)) [
  | inl e ↦ Memᴰ.head (sym ((eqs_iff x k).0 e))
  | inr e ↦ Memᴰ.tail (contains-Memᴰ xs k (rw e at h))
]

all_supported-known :
    (keys : List Bytes) → all_supported keys ≡ true → All (λ k. Memᴰ k known_keys) keys
unfolding all_supported supported_keys
all_supported-known [] h = tt
all_supported-known (k ∷ keys) h = elim (Bool-cases (contains supported_keys k)) [
  | inl e ↦ (contains-Memᴰ known_keys k e, all_supported-known keys (rw e at h))
  | inr e ↦ absurd (false≢true (rw e at h))
]

check-known :
    (r : HttpsRecordResult)
    → check_mandatory_params r ≡ true
    → All (λ k. Memᴰ k known_keys) r.mandatory_keys
unfolding check_mandatory_params
check-known r h = all_supported-known r.mandatory_keys h

module _ (d : DnsProtocol) (check : IsAddressCheck d) where
  accept-shape :
      (target : Bytes) (ps : List Tlv)
      → All FitsWire ps
      → HasFields (accept d target ps) × IsChecked (accept d target ps)
  accept-shape target ps ok =
      let r = foldl (act d) (named target) ps in
      (
        with_valid r (foldl-act-HasFields d check ps (named target) ok (named-HasFields target)) _,
        λ valid. check-known r valid,
      )

  pub Parses-shape :
      {raw : Bytes} {r : HttpsRecordResult} → Parses d raw r → HasFields r × IsChecked r
  Parses-shape (too_short h e) = rw e (fresh_result-HasFields, λ v. absurd (false≢true v))
  Parses-shape (alias_mode s e f) = rw f (fresh_result-HasFields, λ v. absurd (false≢true v))
  Parses-shape (bad_name hi lo labels len s pos ok h e f) =
      rw f (fresh_result-HasFields, λ v. absurd (false≢true v))
  Parses-shape (unfinished_name hi lo labels pos ok e f) = rw f (accept-shape (dotted labels) [] tt)
  Parses-shape (service_mode hi lo labels ps tail pos ok fits end e f) =
      rw f (accept-shape (dotted labels) ps fits)

  -- Whatever bytes a record has, `Parse` returns, and the fields of the result are in their ranges:
  -- the ECH configuration has bytes and a length below 65536, each protocol is not empty and has
  -- fewer than 256 bytes, each IPv4 hint has four bytes and each IPv6 hint sixteen, the port is
  -- below 65536, no mandatory key stands twice; and if the result is valid, every mandatory key is
  -- "alpn", "echconfig", "ipv4hint", "ipv6hint" or "port". Addresses of four and of sixteen bytes are taken to be valid.
  pub parse-HasFields :
      (cbs : Cbs) (laws : IsCbs cbs) (raw : Bytes)
      → AreBytes raw
      → (r : HttpsRecordResult) × (parse cbs d raw ≡ some r) × HasFields r × IsChecked r
  parse-HasFields cbs laws raw bytes =
      let (r, p) = Parses-total d raw bytes in
      let (fields, checked) = Parses-shape p in
      (r, parse_of_Parses cbs laws d raw r p, fields, checked)

-- ===== src/Dns/Parser.antt =====
-- host_resolver_manager.cc: `HttpsRecordParser`, over BoringSSL's CBS. `none` and `out_of_fuel`
-- stand for fuel that ran out; each loop is given more fuel than there are bytes left.
pub mod ServiceName
pub mod Reading
pub mod Effects
pub mod Meaning
pub mod Grammar
pub mod RoundTrip
pub mod Print
pub mod Unknown
pub mod Shape
use kiwi_network_patches.Prelude.{
  ℕ, zero, suc, Bool, true, false, not, Option, none, some, [], ◌∷◌, ◌++◌, length, ltb, ◌==◌,
  if◌then◌else◌,
}
use kiwi_network_patches.Prelude.Bytes.{Bytes, eqs, is_empty, text}
use kiwi_network_patches.Prelude.Drain.{drain}
use kiwi_network_patches.Prelude.Outcome.{Outcome, out_of_fuel, failed, done}
use kiwi_network_patches.Platform.Bytestring.{Cbs}
use kiwi_network_patches.Platform.DnsProtocol.{DnsProtocol}
use kiwi_network_patches.Dns.Record.{HttpsRecordResult, fresh_result}
use kiwi_network_patches.Dns.Params.{
  parse_mandatory_param, parse_alpn_param, parse_ech_config_param, parse_ipv4_hint_param,
  parse_ipv6_hint_param, parse_port_param, check_mandatory_params,
}

module _ (cbs : Cbs) where
  -- The loop of `ReadServiceName`, over the CBS and `name`.
  unfoldable pub read_labels : ℕ → Bytes → Bytes → Outcome (Bytes × Bytes)
  read_labels zero s name = out_of_fuel
  read_labels (suc fuel) [] name = done (name, [])
  read_labels (suc fuel) (b ∷ s) name = elim (cbs.get_u8 (b ∷ s)) [
    | none ↦ failed
    | some (label_len, s1) ↦ elim (label_len == 0) [
      | true ↦ done (name, s1)
      | false ↦
          let dotted = if not (is_empty name) then name ++ b'.' ∷ [] else name in
          elim (cbs.get_bytes s1 label_len) [
            | none ↦ failed
            | some (label, s2) ↦ read_labels fuel s2 (dotted ++ label)
          ]
    ]
  ]

  -- The name that was read, and the CBS behind it.
  unfoldable pub read_service_name : Bytes → Outcome (Bytes × Bytes)
  unfolding read_labels
  read_service_name s = elim (read_labels (suc (length s)) s []) [
    | out_of_fuel ↦ out_of_fuel
    | failed ↦ failed
    | done (name, rest) ↦ done (if is_empty name then text "." else name, rest)
  ]

-- The `switch` of `ParseOneParam`.
unfoldable pub apply_param : DnsProtocol → ℕ → Bytes → HttpsRecordResult → HttpsRecordResult
apply_param d key value r =
    if key == d.key_mandatory
    then parse_mandatory_param d value r
    else if key == d.key_alpn
    then parse_alpn_param value r
    else if key == d.key_ech_config
    then parse_ech_config_param value r
    else if key == d.key_ipv4_hint
    then parse_ipv4_hint_param d value r
    else if key == d.key_ipv6_hint
    then parse_ipv6_hint_param d value r
    else if key == d.key_port
    then parse_port_param value r
    else r

module _ (cbs : Cbs) (d : DnsProtocol) where
  -- `none` is `return false`, after which the caller leaves its loop; the result is not changed
  -- before.
  unfoldable pub parse_one_param : Bytes → HttpsRecordResult → Option (Bytes × HttpsRecordResult)
  parse_one_param s r = if ltb (length s) 4 then none else elim (cbs.get_u16 s) [
    | none ↦ none
    | some (key, s1) ↦ elim (cbs.get_u16 s1) [
      | none ↦ none
      | some (value_length, s2) ↦
          if ltb (length s2) value_length then none else elim (cbs.get_bytes s2 value_length) [
            | none ↦ none
            | some (value, s3) ↦ some (s3, apply_param d key value r)
          ]
    ]
  ]

  -- `Parse` behind the target name.
  unfoldable pub parse_params : Bytes → Bytes → Option HttpsRecordResult
  parse_params target s =
      let named =
        if not (eqs target (text "."))
        then record fresh_result { alternative_service = target }
        else fresh_result in
      elim (drain parse_one_param (suc (length s)) s named) [
        | none ↦ none
        | some r ↦ some (record r { valid = check_mandatory_params r })
      ]

  unfoldable pub parse : Bytes → Option HttpsRecordResult
  parse raw_record = elim (cbs.get_u16 raw_record) [
    | none ↦ some fresh_result
    | some (priority, s) ↦
        if priority == 0 then some fresh_result else elim (read_service_name cbs s) [
          | out_of_fuel ↦ none
          | failed ↦ some fresh_result
          | done (target, rest) ↦ parse_params target rest
        ]
  ]

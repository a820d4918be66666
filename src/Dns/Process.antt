-- ===== src/Dns/Process.antt =====
-- host_resolver_manager.cc: `ProcessHttpsRecord` and `ShouldUpgradeHttpToHttps`. The argument
-- `https_records` is `results.https_records()`: absent, or the raw records in order. `none` stands
-- for fuel that ran out in the parser.
pub mod Stores
pub mod FirstValid
pub mod Upgrade
use kiwi_network_patches.Prelude.{
  ℕ, Bool, true, false, not, ◌&&◌, Option, none, some, List, [], ◌∷◌, ◌++◌, if◌then◌else◌,
}
use kiwi_network_patches.Prelude.Bytes.{Bytes, eqs, is_empty, text}
use kiwi_network_patches.Platform.Features.{FeatureList, use_dns_https_svcb}
use kiwi_network_patches.Platform.Bytestring.{Cbs}
use kiwi_network_patches.Platform.DnsProtocol.{DnsProtocol}
use kiwi_network_patches.Platform.ResolveContext.{ContextOps}
use kiwi_network_patches.Dns.Record.{HttpsRecordResult}
use kiwi_network_patches.Dns.Parser.{parse}

abbrev pub no_items : List Bytes → Bool
no_items [] = true
no_items (_ ∷ _) = false

-- The loop that looks for "h3".
abbrev pub has_h3 : List Bytes → Bool
has_h3 [] = false
has_h3 (alpn ∷ alpns) = if eqs alpn (text "h3") then true else has_h3 alpns

module _ {C K : Type 0} (ops : ContextOps C K) (nik : K) where
  abbrev pub store_ech : HttpsRecordResult → C → C
  store_ech parsed c =
      if not (is_empty parsed.ech_config) then ops.set_ech_config nik parsed.ech_config c else c

  abbrev pub store_http3 : HttpsRecordResult → C → C
  store_http3 parsed c = if has_h3 parsed.alpn then ops.set_supports_http3 nik true c else c

  abbrev pub store_hints : HttpsRecordResult → C → C
  store_hints parsed c =
      if no_items parsed.ipv4_hints && no_items parsed.ipv6_hints
      then c
      else ops.set_address_hints nik (parsed.ipv4_hints ++ parsed.ipv6_hints) c

  abbrev pub store_port : HttpsRecordResult → C → C
  store_port parsed c = elim parsed.port [ none ↦ c | some p ↦ ops.set_alternative_port nik p c ]

  -- Steps 1 to 4 of the loop body.
  unfoldable pub store_result : HttpsRecordResult → C → C
  store_result parsed c =
      store_port parsed (store_hints parsed (store_http3 parsed (store_ech parsed c)))

module _ (features : FeatureList) (cbs : Cbs) (d : DnsProtocol) where
  module _ {C K : Type 0} (ops : ContextOps C K) (nik : K) where
    unfoldable pub process_records : List Bytes → C → Option C
    process_records [] c = some c
    process_records (raw ∷ records) c =
        let rest = process_records records c in
        elim (parse cbs d raw) [
          | none ↦ none
          | some parsed ↦ if not parsed.valid then rest else some (store_result ops nik parsed c)
        ]

    unfoldable pub process_https_record : Option (List Bytes) → C → Option C
    process_https_record https_records c =
        if not (features use_dns_https_svcb)
        then some c
        else elim https_records [ none ↦ some c | some records ↦ process_records records c ]

  unfoldable pub any_upgrades : List Bytes → Option Bool
  any_upgrades [] = some false
  any_upgrades (raw ∷ records) =
      let rest = any_upgrades records in
      elim (parse cbs d raw) [
        | none ↦ none
        | some parsed ↦
            if parsed.valid then (if not (no_items parsed.alpn) then some true else rest) else rest
      ]

  unfoldable pub should_upgrade_http_to_https : Option (List Bytes) → Option Bool
  should_upgrade_http_to_https https_records =
      if not (features use_dns_https_svcb)
      then some false
      else elim https_records [ none ↦ some false | some records ↦ any_upgrades records ]

-- ===== src/Dns/Process/FirstValid.antt =====
-- host_resolver_manager.cc: which records `ProcessHttpsRecord` and `ShouldUpgradeHttpToHttps` use.
use kiwi_network_patches.Prelude.{
  ◌≡◌, refl, true, false, Option, none, some, List, [], ◌∷◌, All, Bool-cases, inl, inr,
}
use kiwi_network_patches.Prelude.Bytes.{Bytes, AreBytes}
use kiwi_network_patches.Platform.Features.{FeatureList, use_dns_https_svcb}
use kiwi_network_patches.Platform.Bytestring.{Cbs, IsCbs}
use kiwi_network_patches.Platform.DnsProtocol.{DnsProtocol}
use kiwi_network_patches.Platform.ResolveContext.{ContextOps}
use kiwi_network_patches.Dns.Record.{HttpsRecordResult}
use kiwi_network_patches.Dns.Parser.Grammar.{Parses, Parses-total, parse_of_Parses}
use kiwi_network_patches.Dns.Process.Stores.{StoresFirst, store_result-Stores}
use kiwi_network_patches.Dns.Process.{store_result, process_records, process_https_record}

-- The first record, by the grammar of the wire format, that is valid.
pub data FirstValid (d : DnsProtocol) : List Bytes → Option HttpsRecordResult → Type 0 where
  exhausted : FirstValid d [] none
  skip :
      {raw : Bytes} {records : List Bytes} {o : Option HttpsRecordResult} (r : HttpsRecordResult)
      → Parses d raw r
      → r.valid ≡ false
      → FirstValid d records o
      → FirstValid d (raw ∷ records) o
  found :
      {raw : Bytes} {records : List Bytes} (r : HttpsRecordResult)
      → Parses d raw r
      → r.valid ≡ true
      → FirstValid d (raw ∷ records) (some r)

pub FirstValid-total :
    (d : DnsProtocol) (records : List Bytes)
    → All AreBytes records
    → (o : Option HttpsRecordResult) × FirstValid d records o
FirstValid-total d [] h = (none, exhausted)
FirstValid-total d (raw ∷ records) h =
    let (r, p) = Parses-total d raw h.0 in
    let (o, first) = FirstValid-total d records h.1 in
    elim (Bool-cases r.valid) [ inl v ↦ (some r, found r p v) | inr v ↦ (o, skip r p v first) ]

module _ {C K : Type 0} (ops : ContextOps C K) (nik : K) where
  -- The context after the loop: the result of the chosen record is stored, if there is one.
  abbrev pub stored : C → Option HttpsRecordResult → C
  stored c none = c
  stored c (some r) = store_result ops nik r c

module _ (features : FeatureList) (cbs : Cbs) (laws : IsCbs cbs) (d : DnsProtocol) where
  pub process_records-FirstValid :
      {C K : Type 0} (ops : ContextOps C K) (nik : K) (c : C) {records : List Bytes}
      {o : Option HttpsRecordResult}
      → FirstValid d records o
      → process_records features cbs d ops nik records c ≡ some (stored ops nik c o)
  unfolding process_records
  process_records-FirstValid ops nik c exhausted = refl
  process_records-FirstValid ops nik c (skip {raw} r p v first) =
      rw (parse_of_Parses cbs laws d raw r p, v, process_records)
        (process_records-FirstValid ops nik c first)
  process_records-FirstValid ops nik c (found {raw} r p v) =
      rw (parse_of_Parses cbs laws d raw r p, v, process_records)

  stored-StoresFirst :
      {C K : Type 0} (ops : ContextOps C K) (nik : K) (c : C) (o : Option HttpsRecordResult)
      → StoresFirst ops nik o c (stored ops nik c o)
  stored-StoresFirst ops nik c none = refl
  stored-StoresFirst ops nik c (some r) = store_result-Stores ops nik r c

  -- With the feature enabled, `ProcessHttpsRecord` returns on every list of records. With no valid
  -- record by the grammar the context stays as it was; otherwise the first valid one is stored, and no
  -- other: its ECH configuration if it is not empty, then that HTTP/3 is supported if "h3" is among
  -- its protocols, then its address hints, IPv4 first, if it has any, and last its port if it has one.
  pub process_https_record-FirstValid :
      {C K : Type 0} (ops : ContextOps C K) (nik : K) (c : C) (records : List Bytes)
      → features use_dns_https_svcb ≡ true
      → All AreBytes records
      → (o : Option HttpsRecordResult) × FirstValid d records o
        × (c' : C) × (process_https_record features cbs d ops nik (some records) c ≡ some c')
        × StoresFirst ops nik o c c'
  unfolding process_https_record
  process_https_record-FirstValid ops nik c records on bytes =
      let (o, first) = FirstValid-total d records bytes in
      (
        o,
        first,
        stored ops nik c o,
        rw on (process_records-FirstValid ops nik c first),
        stored-StoresFirst ops nik c o,
      )

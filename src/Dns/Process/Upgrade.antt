-- ===== src/Dns/Process/Upgrade.antt =====
-- host_resolver_manager.cc: when `ShouldUpgradeHttpToHttps` says yes.
use kiwi_network_patches.Prelude.{
  ◌≡◌, refl, ◌≢◌, Bool, true, false, some, List, [], ◌∷◌, All, arith, Bool-cases, ◌⊎◌, inl, inr,
}
use kiwi_network_patches.Prelude.Bytes.{Bytes, AreBytes}
use kiwi_network_patches.Platform.Features.{FeatureList, use_dns_https_svcb}
use kiwi_network_patches.Platform.Bytestring.{Cbs, IsCbs}
use kiwi_network_patches.Platform.DnsProtocol.{DnsProtocol}
use kiwi_network_patches.Dns.Record.{HttpsRecordResult}
use kiwi_network_patches.Dns.Parser.Grammar.{Parses, Parses-total, parse_of_Parses}
use kiwi_network_patches.Dns.Process.{no_items, any_upgrades, should_upgrade_http_to_https}

-- No record is both valid and lists a protocol.
abbrev pub Silent : HttpsRecordResult → Type 0
Silent r = (r.valid ≡ false) ⊎ (r.alpn ≡ [])

pub data Decides (d : DnsProtocol) : List Bytes → Bool → Type 0 where
  no_more : Decides d [] false
  pass :
      {raw : Bytes} {records : List Bytes} {b : Bool} (r : HttpsRecordResult)
      → Parses d raw r
      → Silent r
      → Decides d records b
      → Decides d (raw ∷ records) b
  speak :
      {raw : Bytes} {records : List Bytes} {b : Bool} (r : HttpsRecordResult)
      → Parses d raw r
      → r.valid ≡ true
      → r.alpn ≢ []
      → b ≡ true
      → Decides d (raw ∷ records) b

look_list : (xs : List Bytes) → (xs ≡ []) ⊎ (xs ≢ [])
look_list [] = inl refl
look_list (x ∷ xs) = inr (λ e. cc)

look_result : (r : HttpsRecordResult) → Silent r ⊎ ((r.valid ≡ true) × (r.alpn ≢ []))
look_result r = elim (Bool-cases r.valid) [
  | inr v ↦ inl (inl v)
  | inl v ↦ elim (look_list r.alpn) [ inl e ↦ inl (inr e) | inr ne ↦ inr (v, ne) ]
]

Decides-total :
    (d : DnsProtocol) (records : List Bytes)
    → All AreBytes records
    → (b : Bool) × Decides d records b
Decides-total d [] h = (false, no_more)
Decides-total d (raw ∷ records) h =
    let (r, p) = Parses-total d raw h.0 in
    let (b, rest) = Decides-total d records h.1 in
    elim (look_result r) [
      | inl silent ↦ (b, pass r p silent rest)
      | inr speaks ↦ (true, speak r p speaks.0 speaks.1 refl)
    ]

no_items_of_ne : (xs : List Bytes) → xs ≢ [] → no_items xs ≡ false
no_items_of_ne [] h = absurd (h refl)
no_items_of_ne (x ∷ xs) h = refl

module _ (features : FeatureList) (cbs : Cbs) (laws : IsCbs cbs) (d : DnsProtocol) where
  any_upgrades-Decides :
      {records : List Bytes} {b : Bool}
      → Decides d records b
      → any_upgrades features cbs d records ≡ some b
  unfolding any_upgrades
  any_upgrades-Decides no_more = refl
  any_upgrades-Decides (pass {raw} r p (inl v) rest) =
      rw (parse_of_Parses cbs laws d raw r p, v, any_upgrades) (any_upgrades-Decides rest)
  any_upgrades-Decides (pass {raw} r p (inr e) rest) =
      rw (parse_of_Parses cbs laws d raw r p, e, any_upgrades)
        (ground (arith, any_upgrades-Decides rest))
  any_upgrades-Decides (speak {raw} r p v ne e) =
      rw (e, parse_of_Parses cbs laws d raw r p, v, no_items_of_ne r.alpn ne, any_upgrades)

  -- With the feature enabled there is always an answer, and it is yes exactly if some record is
  -- valid and lists a protocol, whatever stands behind it; records that are invalid or list none
  -- are passed.
  pub should_upgrade_http_to_https-Decides :
      (records : List Bytes)
      → features use_dns_https_svcb ≡ true
      → All AreBytes records
      → (b : Bool) × Decides d records b
        × (should_upgrade_http_to_https features cbs d (some records) ≡ some b)
  unfolding should_upgrade_http_to_https
  should_upgrade_http_to_https-Decides records on bytes =
      let (b, decides) = Decides-total d records bytes in
      (b, decides, rw on (any_upgrades-Decides decides))

-- ===== src/Dns/Parser/Meaning/PerField.antt =====
-- host_resolver_manager.cc: each field of a result behind all the parameters of a record.
use kiwi_network_patches.Prelude.{
  ℕ, ◌+◌, ◌*◌, ◌≡◌, refl, ap, ◌∙◌, Option, some, List, [], ◌∷◌, ◌++◌, All, foldl, map, append-nil,
  append_assoc,
}
use kiwi_network_patches.Prelude.Bytes.{Bytes}
use kiwi_network_patches.Prelude.Tlv.{Tlv, FitsWire}
use kiwi_network_patches.Platform.DnsProtocol.{DnsProtocol, IsAddressCheck, HasDistinctKeys}
use kiwi_network_patches.Dns.Record.{HttpsRecordResult}
use kiwi_network_patches.Dns.Params.{parse_ech_config_param}
use kiwi_network_patches.Dns.Params.Alpn.{non_empty, parse_alpn_param-encode, decompose_alpn}
use kiwi_network_patches.Dns.Params.Hints.{
  decompose_pieces, parse_ipv4_hint_param-pieces, parse_ipv6_hint_param-pieces,
}
use kiwi_network_patches.Dns.Params.Mandatory.{
  key_name, put_keys, put_keys-append, foldl-add_key, parse_mandatory_param-pieces,
}
use kiwi_network_patches.Dns.Parser.Reading.{act}
use kiwi_network_patches.Dns.Parser.Effects.{
  next_port, act-mandatory, act-alpn, act-ech, act-ipv4, act-ipv6, act-port, mandatory_keys-act,
  alpn-act, ech_config-act, ipv4_hints-act, ipv6_hints-act, port-act, alternative_service-act,
}
use kiwi_network_patches.Dns.Parser.Meaning.{
  values, last_of, last_port, ListsProtocols, ListsPieces, ListsKeys, Together,
}
use kiwi_network_patches.Dns.Parser.Meaning.Collected.{foldl-act-update, foldl-act-Together}

foldl-last_of : (x : Bytes) (vs : List Bytes) → foldl (λ _ v. v) x vs ≡ last_of x vs
foldl-last_of x [] = refl
foldl-last_of x (v ∷ vs) = foldl-last_of v vs

foldl-next_port : (x : Option ℕ) (vs : List Bytes) → foldl next_port x vs ≡ last_port x vs
foldl-next_port x [] = refl
foldl-next_port x ([] ∷ vs) = foldl-next_port x vs
foldl-next_port x ((a ∷ []) ∷ vs) = foldl-next_port x vs
foldl-next_port x ((a ∷ b ∷ v) ∷ vs) = foldl-next_port (some (a * 256 + b)) vs

module _ (d : DnsProtocol) (check : IsAddressCheck d) (distinct : HasDistinctKeys d) (p : Tlv)
    (r : HttpsRecordResult) where
  alpn-protocols :
      (xs : List Bytes)
      → p.tag ≡ d.key_alpn
      → ListsProtocols p.value xs
      → (act d r p).alpn ≡ r.alpn ++ xs
  alpn-protocols xs same (ps, tail, eq, ok, end, e) =
      rw (act-alpn d distinct p r same, eq, parse_alpn_param-encode ps tail r ok end, e)

  ipv4_hints-pieces :
      (xs : List Bytes)
      → p.tag ≡ d.key_ipv4_hint
      → ListsPieces 3 p.value xs
      → (act d r p).ipv4_hints ≡ r.ipv4_hints ++ xs
  ipv4_hints-pieces xs same (tail, eq, ok, end) =
      rw (act-ipv4 d distinct p r same, eq, parse_ipv4_hint_param-pieces d check xs tail r ok end)

  ipv6_hints-pieces :
      (xs : List Bytes)
      → p.tag ≡ d.key_ipv6_hint
      → ListsPieces 15 p.value xs
      → (act d r p).ipv6_hints ≡ r.ipv6_hints ++ xs
  ipv6_hints-pieces xs same (tail, eq, ok, end) =
      rw (act-ipv6 d distinct p r same, eq, parse_ipv6_hint_param-pieces d check xs tail r ok end)

  mandatory_keys-names :
      (xs : List Bytes)
      → p.tag ≡ d.key_mandatory
      → ListsKeys d p.value xs
      → (act d r p).mandatory_keys ≡ put_keys r.mandatory_keys xs
  mandatory_keys-names xs same (keys, (tail, eq, ok, end), e) =
      rw
        (
          act-mandatory d distinct p r same,
          eq,
          parse_mandatory_param-pieces d keys tail r ok end,
          e,
        )
        (foldl-add_key d r.mandatory_keys keys)

module _ (d : DnsProtocol) (check : IsAddressCheck d) (distinct : HasDistinctKeys d) (ps : List Tlv)
    (r : HttpsRecordResult) (ok : All FitsWire ps) where
  pub ech_config-foldl :
      (foldl (act d) r ps).ech_config ≡ last_of r.ech_config (values d.key_ech_config ps)
  unfolding parse_ech_config_param
  ech_config-foldl =
      foldl-act-update d d.key_ech_config (λ (r : HttpsRecordResult). r.ech_config)
        (ech_config-act d) (λ _ v. v)
        (λ p r e. ap (λ (r : HttpsRecordResult). r.ech_config) (act-ech d distinct p r e)) ps r
      ∙ foldl-last_of r.ech_config (values d.key_ech_config ps)

  pub port-foldl : (foldl (act d) r ps).port ≡ last_port r.port (values d.key_port ps)
  port-foldl =
      foldl-act-update d d.key_port (λ (r : HttpsRecordResult). r.port) (port-act d) next_port
        (λ p r e. ap (λ (r : HttpsRecordResult). r.port) (act-port d distinct p r e)) ps r
      ∙ foldl-next_port r.port (values d.key_port ps)

  pub alpn-foldl :
      (xs : List Bytes) × Together ListsProtocols (values d.key_alpn ps) xs
      × ((foldl (act d) r ps).alpn ≡ r.alpn ++ xs)
  alpn-foldl =
      foldl-act-Together d d.key_alpn (λ (r : HttpsRecordResult). r.alpn) (alpn-act d) ◌++◌
        ListsProtocols append-nil append_assoc
        (λ p r fits same.
          let (xs, tail, eq, ok, end) = decompose_alpn p.value fits.value_bytes in
          let listed : ListsProtocols p.value (non_empty xs) = (xs, tail, eq, ok, end, refl) in
          (non_empty xs, listed, alpn-protocols d check distinct p r _ same listed))
        ps r ok

  pub ipv4_hints-foldl :
      (xs : List Bytes) × Together (ListsPieces 3) (values d.key_ipv4_hint ps) xs
      × ((foldl (act d) r ps).ipv4_hints ≡ r.ipv4_hints ++ xs)
  ipv4_hints-foldl =
      foldl-act-Together d d.key_ipv4_hint (λ (r : HttpsRecordResult). r.ipv4_hints)
        (ipv4_hints-act d) ◌++◌ (ListsPieces 3) append-nil append_assoc
        (λ p r fits same.
          let (xs, tail, eq, ok, end) = decompose_pieces 3 p.value in
          let listed : (ListsPieces 3) p.value (xs) = (tail, eq, ok, end) in
          (xs, listed, ipv4_hints-pieces d check distinct p r _ same listed))
        ps r ok

  pub ipv6_hints-foldl :
      (xs : List Bytes) × Together (ListsPieces 15) (values d.key_ipv6_hint ps) xs
      × ((foldl (act d) r ps).ipv6_hints ≡ r.ipv6_hints ++ xs)
  ipv6_hints-foldl =
      foldl-act-Together d d.key_ipv6_hint (λ (r : HttpsRecordResult). r.ipv6_hints)
        (ipv6_hints-act d) ◌++◌ (ListsPieces 15) append-nil append_assoc
        (λ p r fits same.
          let (xs, tail, eq, ok, end) = decompose_pieces 15 p.value in
          let listed : (ListsPieces 15) p.value (xs) = (tail, eq, ok, end) in
          (xs, listed, ipv6_hints-pieces d check distinct p r _ same listed))
        ps r ok

  pub mandatory_keys-foldl :
      (xs : List Bytes) × Together (ListsKeys d) (values d.key_mandatory ps) xs
      × ((foldl (act d) r ps).mandatory_keys ≡ put_keys r.mandatory_keys xs)
  mandatory_keys-foldl =
      foldl-act-Together d d.key_mandatory (λ (r : HttpsRecordResult). r.mandatory_keys)
        (mandatory_keys-act d) put_keys (ListsKeys d) (λ x. refl) put_keys-append
        (λ p r fits same.
          let (xs, tail, eq, ok, end) = decompose_pieces 1 p.value in
          let listed : (ListsKeys d) p.value (map (key_name d) xs) =
            (xs, (tail, eq, ok, end), refl) in
          (map (key_name d) xs, listed, mandatory_keys-names d check distinct p r _ same listed))
        ps r ok

pub alternative_service-foldl :
    (d : DnsProtocol) (ps : List Tlv) (r : HttpsRecordResult)
    → (foldl (act d) r ps).alternative_service ≡ r.alternative_service
alternative_service-foldl d [] r = refl
alternative_service-foldl d (p ∷ ps) r =
    alternative_service-foldl d ps (act d r p) ∙ alternative_service-act d p r

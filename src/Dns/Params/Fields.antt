-- ===== src/Dns/Params/Fields.antt =====
-- host_resolver_manager.cc: the ranges of the fields of a result, under the handlers of parameters.
use kiwi_network_patches.Prelude.{
  ℕ, ◌+◌, ◌*◌, ◌<◌, ◌≡◌, Bool, false, Option, none, some, List, [], ◌∷◌, length, All, All-append,
  foldl, arith, Bool-cases, inl, inr,
}
use kiwi_network_patches.Prelude.Bytes.{Bytes, AreBytes}
use kiwi_network_patches.Platform.DnsProtocol.{DnsProtocol, IsAddressCheck}
use kiwi_network_patches.Dns.Record.{HttpsRecordResult, fresh_result}
use kiwi_network_patches.Dns.Params.{
  contains, insert_key, parse_alpn_param, parse_port_param, parse_ipv4_hint_param,
  parse_ipv6_hint_param, parse_mandatory_param,
}
use kiwi_network_patches.Dns.Params.Alpn.{
  FitsByte, non_empty, parse_alpn_param-encode, decompose_alpn,
}
use kiwi_network_patches.Dns.Params.Hints.{
  IsPiece, decompose_pieces, parse_ipv4_hint_param-pieces, parse_ipv6_hint_param-pieces,
}
use kiwi_network_patches.Dns.Params.Mandatory.{add_key, parse_mandatory_param-pieces}

-- No key stands twice in a set.
abbrev pub NoRepeats : List Bytes → Type 0
NoRepeats [] = Unit
NoRepeats (k ∷ keys) = (contains keys k ≡ false) × NoRepeats keys

abbrev pub IsPort : Option ℕ → Type 0
IsPort none = Unit
IsPort (some p) = p < 65536

-- A protocol has a length that its length byte can tell.
abbrev pub IsProtocol : Bytes → Type 0
IsProtocol p = (0 < length p) × (length p < 256)

-- What the parameters fill in.
pub record HasFields (r : HttpsRecordResult) : Type 0 where
  pub ech_fits : length r.ech_config < 65536
  pub ech_bytes : AreBytes r.ech_config
  pub protocols : All IsProtocol r.alpn
  pub v4_addresses : All (IsPiece 3) r.ipv4_hints
  pub v6_addresses : All (IsPiece 15) r.ipv6_hints
  pub port_fits : IsPort r.port
  pub keys_distinct : NoRepeats r.mandatory_keys

non_empty-IsProtocol : (ps : List Bytes) → All FitsByte ps → All IsProtocol (non_empty ps)
non_empty-IsProtocol [] h = tt
non_empty-IsProtocol ([] ∷ ps) h = non_empty-IsProtocol ps h.1
non_empty-IsProtocol ((b ∷ p) ∷ ps) h = ((omega arith, h.0), non_empty-IsProtocol ps h.1)

insert_key-NoRepeats :
    (k : Bytes) (keys : List Bytes) → NoRepeats keys → NoRepeats (insert_key k keys)
insert_key-NoRepeats k keys h = elim (Bool-cases (contains keys k)) [
  | inl e ↦ rw e h
  | inr e ↦ rw e (e, h)
]

foldl-add_key-NoRepeats :
    (d : DnsProtocol) (names keys : List Bytes)
    → NoRepeats keys
    → NoRepeats (foldl (add_key d) keys names)
foldl-add_key-NoRepeats d [] keys h = h
foldl-add_key-NoRepeats d (a ∷ names) keys h =
    foldl-add_key-NoRepeats d names (add_key d keys a) (insert_key-NoRepeats _ keys h)

module _ (r : HttpsRecordResult) (h : HasFields r) where
  pub with_ech :
      (x : Bytes) → length x < 65536 → AreBytes x → HasFields (record r { ech_config = x })
  with_ech x h0 h1 = record {
    ech_fits = h0;
    ech_bytes = h1;
    protocols = h.protocols;
    v4_addresses = h.v4_addresses;
    v6_addresses = h.v6_addresses;
    port_fits = h.port_fits;
    keys_distinct = h.keys_distinct;
  }

  with_alpn : (x : List Bytes) → All IsProtocol x → HasFields (record r { alpn = x })
  with_alpn x h0 = record {
    ech_fits = h.ech_fits;
    ech_bytes = h.ech_bytes;
    protocols = h0;
    v4_addresses = h.v4_addresses;
    v6_addresses = h.v6_addresses;
    port_fits = h.port_fits;
    keys_distinct = h.keys_distinct;
  }

  with_v4 : (x : List Bytes) → All (IsPiece 3) x → HasFields (record r { ipv4_hints = x })
  with_v4 x h0 = record {
    ech_fits = h.ech_fits;
    ech_bytes = h.ech_bytes;
    protocols = h.protocols;
    v4_addresses = h0;
    v6_addresses = h.v6_addresses;
    port_fits = h.port_fits;
    keys_distinct = h.keys_distinct;
  }

  with_v6 : (x : List Bytes) → All (IsPiece 15) x → HasFields (record r { ipv6_hints = x })
  with_v6 x h0 = record {
    ech_fits = h.ech_fits;
    ech_bytes = h.ech_bytes;
    protocols = h.protocols;
    v4_addresses = h.v4_addresses;
    v6_addresses = h0;
    port_fits = h.port_fits;
    keys_distinct = h.keys_distinct;
  }

  with_port : (x : Option ℕ) → IsPort x → HasFields (record r { port = x })
  with_port x h0 = record {
    ech_fits = h.ech_fits;
    ech_bytes = h.ech_bytes;
    protocols = h.protocols;
    v4_addresses = h.v4_addresses;
    v6_addresses = h.v6_addresses;
    port_fits = h0;
    keys_distinct = h.keys_distinct;
  }

  with_keys : (x : List Bytes) → NoRepeats x → HasFields (record r { mandatory_keys = x })
  with_keys x h0 = record {
    ech_fits = h.ech_fits;
    ech_bytes = h.ech_bytes;
    protocols = h.protocols;
    v4_addresses = h.v4_addresses;
    v6_addresses = h.v6_addresses;
    port_fits = h.port_fits;
    keys_distinct = h0;
  }

  pub with_valid : (x : Bool) → HasFields (record r { valid = x })
  with_valid x = record {
    ech_fits = h.ech_fits;
    ech_bytes = h.ech_bytes;
    protocols = h.protocols;
    v4_addresses = h.v4_addresses;
    v6_addresses = h.v6_addresses;
    port_fits = h.port_fits;
    keys_distinct = h.keys_distinct;
  }

  pub with_target : (x : Bytes) → HasFields (record r { alternative_service = x })
  with_target x = record {
    ech_fits = h.ech_fits;
    ech_bytes = h.ech_bytes;
    protocols = h.protocols;
    v4_addresses = h.v4_addresses;
    v6_addresses = h.v6_addresses;
    port_fits = h.port_fits;
    keys_distinct = h.keys_distinct;
  }

module _ (d : DnsProtocol) (check : IsAddressCheck d) (value : Bytes) (bytes : AreBytes value)
    (r : HttpsRecordResult) (h : HasFields r) where
  pub parse_alpn_param-HasFields : HasFields (parse_alpn_param value r)
  parse_alpn_param-HasFields =
      let (ps, tail, eq, ok, end) = decompose_alpn value bytes in
      rw (eq, parse_alpn_param-encode ps tail r ok end)
        (with_alpn r h _ (All-append IsProtocol r.alpn _ h.protocols (non_empty-IsProtocol ps ok)))

  pub parse_ipv4_hint_param-HasFields : HasFields (parse_ipv4_hint_param d value r)
  parse_ipv4_hint_param-HasFields =
      let (addrs, tail, eq, ok, end) = decompose_pieces 3 value in
      rw (eq, parse_ipv4_hint_param-pieces d check addrs tail r ok end)
        (with_v4 r h _ (All-append (IsPiece 3) r.ipv4_hints _ h.v4_addresses ok))

  pub parse_ipv6_hint_param-HasFields : HasFields (parse_ipv6_hint_param d value r)
  parse_ipv6_hint_param-HasFields =
      let (addrs, tail, eq, ok, end) = decompose_pieces 15 value in
      rw (eq, parse_ipv6_hint_param-pieces d check addrs tail r ok end)
        (with_v6 r h _ (All-append (IsPiece 15) r.ipv6_hints _ h.v6_addresses ok))

  pub parse_mandatory_param-HasFields : HasFields (parse_mandatory_param d value r)
  parse_mandatory_param-HasFields =
      let (keys, tail, eq, ok, end) = decompose_pieces 1 value in
      rw (eq, parse_mandatory_param-pieces d keys tail r ok end)
        (with_keys r h _ (foldl-add_key-NoRepeats d keys r.mandatory_keys h.keys_distinct))

pub parse_port_param-HasFields :
    (value : Bytes) (r : HttpsRecordResult)
    → AreBytes value
    → HasFields r
    → HasFields (parse_port_param value r)
unfolding parse_port_param
parse_port_param-HasFields (hi ∷ lo ∷ s) r bytes h =
    with_port r h (some (hi * 256 + lo)) (omega (arith, bytes.0, bytes.1.0))
parse_port_param-HasFields [] r bytes h = h
parse_port_param-HasFields (a ∷ []) r bytes h = h

pub fresh_result-HasFields : HasFields fresh_result
fresh_result-HasFields = record {
  ech_fits = omega arith;
  ech_bytes = tt;
  protocols = tt;
  v4_addresses = tt;
  v6_addresses = tt;
  port_fits = tt;
  keys_distinct = tt;
}

-- ===== src/Dns/Params/Hints.antt =====
-- host_resolver_manager.cc: what the loops of `ParseIpv4HintParam`, `ParseIpv6HintParam` and
-- `ParseMandatoryParam` read: pieces of one width.
use kiwi_network_patches.Prelude.{
  ℕ, suc, ◌<◌, ◌≡◌, sym, ap, ◌∙◌, true, List, [], ◌∷◌, ◌++◌, length, lt→ltb, All, foldl, arith, ◌⊎◌,
  inl, inr, length-append, take-append, drop-append, append_assoc, append-nil, le→ltb, dec_lt,
  length-take, take, drop, take-append-drop,
}
use kiwi_network_patches.Prelude.Bytes.{Bytes, substr}
use kiwi_network_patches.Prelude.Scan.{Scanning, scan-encode_all}
use kiwi_network_patches.Prelude.Drain.{encode_all, decompose}
use kiwi_network_patches.Platform.DnsProtocol.{DnsProtocol, IsAddressCheck}
use kiwi_network_patches.Dns.Record.{HttpsRecordResult}
use kiwi_network_patches.Dns.Params.{
  hint_test, hint_body, parse_ipv4_hint_param, parse_ipv6_hint_param,
}

abbrev pub IsPiece : ℕ → Bytes → Type 0
IsPiece last a = length a ≡ suc last

abbrev pub IsRest : ℕ → Bytes → Type 0
IsRest last s = length s < suc last

abbrev pub piece : Bytes → Bytes
piece a = a

look-IsPiece :
    (last : ℕ) (s : Bytes)
    → Unit {0}
    → IsRest last s ⊎ ((a : Bytes) × (rest : Bytes) × (s ≡ a ++ rest) × IsPiece last a × Unit {0})
look-IsPiece last s _ = elim (dec_lt (length s) (suc last)) [
  | yes less ↦ inl less
  | no enough ↦ inr (
    take (suc last) s,
    drop (suc last) s,
    sym (take-append-drop (suc last) s),
    length-take (suc last) s (omega arith),
    tt,
  )
]

-- Every value is a sequence of pieces of one width, with a rest that is shorter.
pub decompose_pieces :
    (last : ℕ) (value : Bytes)
    → (addrs : List Bytes) × (tail : Bytes) × (value ≡ encode_all piece addrs tail)
      × All (IsPiece last) addrs
      × IsRest last tail
decompose_pieces last value =
    decompose piece (IsPiece last) (IsRest last) (λ _. Unit {0}) (λ a ok. omega arith)
      (look-IsPiece last) (suc (length value)) value tt (omega arith)

substr-piece : (pre a rest : Bytes) → substr (pre ++ (a ++ rest)) (length pre) (length a) ≡ a
substr-piece pre a rest = rw drop-append (take-append a rest)

abbrev pub add_hint : List Bytes → Bytes → List Bytes
add_hint hints a = hints ++ a ∷ []

module _ (d : DnsProtocol) (last : ℕ)
    (valid : (a : Bytes) → length a ≡ suc last → d.address_is_valid a ≡ true) where
  hint_scanning :
      Scanning (hint_test last) (hint_body d last) piece (IsPiece last) (IsRest last) add_hint
  hint_scanning = record {
    nonempty = λ a ok. omega arith;
    goes_on = λ pre a rest ok.
        lt→ltb _ _ (omega (arith, length-append pre (a ++ rest), length-append a rest));
    reads = λ pre a rest x ok. rw (← ok, substr-piece pre a rest) (rw (valid a ok));
    stops = λ pre tail x stop. inl (le→ltb _ _ (omega (arith, length-append pre tail)));
  }

foldl-add_hint : (addrs acc : List Bytes) → foldl add_hint acc addrs ≡ acc ++ addrs
foldl-add_hint [] acc = sym (append-nil acc)
foldl-add_hint (a ∷ addrs) acc = foldl-add_hint addrs _ ∙ append_assoc acc (a ∷ []) addrs

module _ (d : DnsProtocol) (check : IsAddressCheck d) where
  -- The IPv4 hints are all the whole groups of four bytes, in order; a shorter rest is ignored.
  pub parse_ipv4_hint_param-pieces :
      (addrs : List Bytes) (tail : Bytes) (r : HttpsRecordResult)
      → All (IsPiece 3) addrs
      → IsRest 3 tail
      → parse_ipv4_hint_param d (encode_all piece addrs tail) r
        ≡ record r { ipv4_hints = r.ipv4_hints ++ addrs }
  unfolding parse_ipv4_hint_param
  parse_ipv4_hint_param-pieces addrs tail r ok stop =
      let v = encode_all piece addrs tail in
      rw (
        scan-encode_all (hint_scanning d 3 check.valid_v4) addrs tail (suc (length v)) r.ipv4_hints
            ok stop (omega arith),
        foldl-add_hint,
      )

  -- The IPv6 hints are all the whole groups of sixteen bytes, in order; a shorter rest is ignored.
  pub parse_ipv6_hint_param-pieces :
      (addrs : List Bytes) (tail : Bytes) (r : HttpsRecordResult)
      → All (IsPiece 15) addrs
      → IsRest 15 tail
      → parse_ipv6_hint_param d (encode_all piece addrs tail) r
        ≡ record r { ipv6_hints = r.ipv6_hints ++ addrs }
  unfolding parse_ipv6_hint_param
  parse_ipv6_hint_param-pieces addrs tail r ok stop =
      let v = encode_all piece addrs tail in
      rw (
        scan-encode_all (hint_scanning d 15 check.valid_v6) addrs tail (suc (length v)) r.ipv6_hints
            ok stop (omega arith),
        foldl-add_hint,
      )

  -- The hints are all the whole groups of four bytes of the one parameter and of sixteen bytes
  -- of the other, in order; shorter rests are ignored.
  pub hint_params-pieces :
      (v4 v6 : List Bytes) (tail4 tail6 : Bytes) (r : HttpsRecordResult)
      → All (IsPiece 3) v4
      → All (IsPiece 15) v6
      → IsRest 3 tail4
      → IsRest 15 tail6
      → parse_ipv6_hint_param d
          (encode_all piece v6 tail6)
          (parse_ipv4_hint_param d (encode_all piece v4 tail4) r)
        ≡ record r { ipv4_hints = r.ipv4_hints ++ v4; ipv6_hints = r.ipv6_hints ++ v6 }
  hint_params-pieces v4 v6 tail4 tail6 r ok4 ok6 stop4 stop6 =
      ap (parse_ipv6_hint_param d (encode_all piece v6 tail6))
        (parse_ipv4_hint_param-pieces v4 tail4 r ok4 stop4)
      ∙ parse_ipv6_hint_param-pieces v6 tail6 _ ok6 stop6

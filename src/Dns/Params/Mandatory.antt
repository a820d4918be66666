-- ===== src/Dns/Params/Mandatory.antt =====
-- host_resolver_manager.cc: what `ParseMandatoryParam` collects, and what `CheckMandatoryParams`
-- says of it.
use kiwi_network_patches.Prelude.{
  ℕ, suc, ◌+◌, ◌*◌, ◌≡◌, refl, sym, ◌∙◌, true, ◌&&◌, ◌||◌, if◌then◌else◌, some, List, [], ◌∷◌, ◌++◌,
  length, lt→ltb, All, foldl, map, arith, inl, length-append, le→ltb, append_assoc,
}
use kiwi_network_patches.Prelude.Bytes.{Bytes, byte_at, eqs, eqs_iff, byte_at-append}
use kiwi_network_patches.Prelude.Scan.{Scanning, scan-encode_all}
use kiwi_network_patches.Prelude.Drain.{encode_all}
use kiwi_network_patches.Platform.DnsProtocol.{DnsProtocol}
use kiwi_network_patches.Dns.Record.{HttpsRecordResult}
use kiwi_network_patches.Dns.Params.{
  hint_test, contains, insert_key, mandatory_body, parse_mandatory_param, supported_keys,
  all_supported, check_mandatory_params,
}
use kiwi_network_patches.Dns.Params.Hints.{IsPiece, IsRest, piece}

byte_at-append_next :
    (pre : Bytes) (h l : ℕ) (s : Bytes) → byte_at (pre ++ h ∷ l ∷ s) (length pre + 1) ≡ l
byte_at-append_next pre h l s =
    let one : length pre + 1 ≡ length (pre ++ h ∷ []) = omega (arith, length-append pre (h ∷ [])) in
    let regroup : pre ++ h ∷ l ∷ s ≡ (pre ++ h ∷ []) ++ (l ∷ s) =
      sym (append_assoc pre (h ∷ []) (l ∷ s)) in
    rw (one, regroup) (byte_at-append (pre ++ h ∷ []) l s)

module _ (d : DnsProtocol) where
  -- The name of the key that two bytes stand for.
  abbrev pub key_name : Bytes → Bytes
  key_name a = d.key_to_string (byte_at a 0 * 256 + byte_at a 1)

  abbrev pub add_key : List Bytes → Bytes → List Bytes
  add_key keys a = insert_key (key_name a) keys

  mandatory_body-reads :
      (pre a rest : Bytes) (x : List Bytes)
      → IsPiece 1 a
      → mandatory_body d (pre ++ (a ++ rest)) (length pre) x
        ≡ some (length pre + length a, add_key x a)
  mandatory_body-reads pre (h ∷ l ∷ []) rest x ok =
      rw (byte_at-append pre h (l ∷ rest), byte_at-append_next pre h l rest)
  mandatory_body-reads pre [] rest x ok = absurd (omega arith)
  mandatory_body-reads pre (h ∷ []) rest x ok = absurd (omega arith)
  mandatory_body-reads pre (h ∷ l ∷ m ∷ a) rest x ok = absurd (omega arith)

  mandatory_scanning :
      Scanning (hint_test 1) (mandatory_body d) piece (IsPiece 1) (IsRest 1) add_key
  mandatory_scanning = record {
    nonempty = λ a ok. omega arith;
    goes_on = λ pre a rest ok.
        lt→ltb _ _ (omega (arith, length-append pre (a ++ rest), length-append a rest));
    reads = mandatory_body-reads;
    stops = λ pre tail x stop. inl (le→ltb _ _ (omega (arith, length-append pre tail)));
  }

  pub parse_mandatory_param-pieces :
      (keys : List Bytes) (tail : Bytes) (r : HttpsRecordResult)
      → All (IsPiece 1) keys
      → IsRest 1 tail
      → parse_mandatory_param d (encode_all piece keys tail) r
        ≡ record r { mandatory_keys = foldl add_key r.mandatory_keys keys }
  unfolding parse_mandatory_param
  parse_mandatory_param-pieces keys tail r ok stop =
      let v = encode_all piece keys tail in
      rw (
        scan-encode_all mandatory_scanning keys tail (suc (length v)) r.mandatory_keys ok stop
          (omega arith))

pub contains-supported :
    (keys : List Bytes) (k : Bytes)
    → contains keys k ≡ true
    → all_supported keys ≡ true
    → contains supported_keys k ≡ true
unfolding all_supported
contains-supported [] k c h = cc
contains-supported (x ∷ keys) k c h = ground (arith, eqs_iff x k, contains-supported keys k)

all_supported-insert_key :
    (k : Bytes) (keys : List Bytes)
    → all_supported (insert_key k keys) ≡ (contains supported_keys k && all_supported keys)
unfolding all_supported
all_supported-insert_key k keys = ground (arith, contains-supported keys k)

-- The keys of `mandatory`, put into the set one by one.
abbrev pub put_keys : List Bytes → List Bytes → List Bytes
put_keys keys names = foldl (λ ks k. insert_key k ks) keys names

pub put_keys-append :
    (keys xs ys : List Bytes) → put_keys (put_keys keys xs) ys ≡ put_keys keys (xs ++ ys)
put_keys-append keys [] ys = refl
put_keys-append keys (x ∷ xs) ys = put_keys-append (insert_key x keys) xs ys

pub foldl-add_key :
    (d : DnsProtocol) (keys names : List Bytes)
    → foldl (add_key d) keys names ≡ put_keys keys (map (key_name d) names)
foldl-add_key d keys [] = refl
foldl-add_key d keys (a ∷ names) = foldl-add_key d (add_key d keys a) names

pub contains-insert_key :
    (x k : Bytes) (keys : List Bytes)
    → contains (insert_key x keys) k ≡ (if eqs x k then true else contains keys k)
contains-insert_key x k keys = ground (arith, eqs_iff x k)

pub contains-put_keys :
    (k : Bytes) (names keys : List Bytes)
    → contains (put_keys keys names) k ≡ (contains names k || contains keys k)
contains-put_keys k [] keys = refl
contains-put_keys k (x ∷ names) keys =
    contains-put_keys k names (insert_key x keys) ∙ ground (arith, contains-insert_key x k keys)

pub all_supported-put_keys :
    (names keys : List Bytes)
    → all_supported (put_keys keys names) ≡ (all_supported names && all_supported keys)
unfolding all_supported
all_supported-put_keys [] keys = refl
all_supported-put_keys (k ∷ names) keys =
    ground
      (arith, all_supported-put_keys names (insert_key k keys), all_supported-insert_key k keys)

-- The set that a `mandatory` parameter leaves passes the check exactly when the set before it does
-- and every listed key has a supported name, however often and in which order the keys stand.
pub check_mandatory_params-parse :
    (d : DnsProtocol) (keys : List Bytes) (tail : Bytes) (r : HttpsRecordResult)
    → All (IsPiece 1) keys
    → IsRest 1 tail
    → check_mandatory_params (parse_mandatory_param d (encode_all piece keys tail) r)
      ≡ (all_supported (map (key_name d) keys) && check_mandatory_params r)
unfolding check_mandatory_params
check_mandatory_params-parse d keys tail r ok stop =
    rw (parse_mandatory_param-pieces d keys tail r ok stop) (
      rw (foldl-add_key d r.mandatory_keys keys)
        (all_supported-put_keys (map (key_name d) keys) r.mandatory_keys))

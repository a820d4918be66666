-- ===== src/Dns/Params/Alpn.antt =====
-- host_resolver_manager.cc: what `ParseAlpnParam` reads.
use kiwi_network_patches.Prelude.{
  ℕ, suc, ◌+◌, ◌<◌, ◌≡◌, sym, ◌∙◌, true, false, not, none, some, List, [], ◌∷◌, ◌++◌, length, ltb,
  lt→ltb, if◌then◌else◌, All, foldl, arith, ◌⊎◌, inl, inr, append-nil, le→ltb, dec_lt, length-take,
  take, drop, All-drop, take-append-drop, length-append, take-append, append_assoc,
}
use kiwi_network_patches.Prelude.Bytes.{
  Bytes, IsByte, AreBytes, is_empty, substr, byte_at-append, drop-append_plus,
}
use kiwi_network_patches.Prelude.Scan.{Scanning, scan-encode_all}
use kiwi_network_patches.Prelude.Drain.{encode_all, decompose}
use kiwi_network_patches.Dns.Record.{HttpsRecordResult}
use kiwi_network_patches.Dns.Params.{alpn_test, alpn_body, parse_alpn_param}

-- A protocol behind its length byte.
abbrev pub encode_protocol : Bytes → Bytes
encode_protocol p = length p ∷ p

abbrev pub FitsByte : Bytes → Type 0
FitsByte p = length p < 256

-- A rest at which the loop stops: nothing, or a length byte that announces more than there is.
pub data Truncated : Bytes → Type 0 where
  nothing : Truncated []
  short : {len : ℕ} {s : Bytes} → length s < len → Truncated (len ∷ s)

abbrev pub add_protocol : List Bytes → Bytes → List Bytes
add_protocol alpn p = if not (is_empty p) then alpn ++ p ∷ [] else alpn

abbrev pub non_empty : List Bytes → List Bytes
non_empty [] = []
non_empty (p ∷ ps) = if not (is_empty p) then p ∷ non_empty ps else non_empty ps

foldl-add_protocol : (ps acc : List Bytes) → foldl add_protocol acc ps ≡ acc ++ non_empty ps
foldl-add_protocol [] acc = sym (append-nil acc)
foldl-add_protocol ([] ∷ ps) acc = foldl-add_protocol ps acc
foldl-add_protocol ((b ∷ p) ∷ ps) acc =
    foldl-add_protocol ps _ ∙ append_assoc acc ((b ∷ p) ∷ []) (non_empty ps)

substr-front :
    (pre : Bytes) (h : ℕ) (p rest : Bytes)
    → substr (pre ++ h ∷ (p ++ rest)) (length pre + 1) (length p) ≡ p
substr-front pre h p rest = rw drop-append_plus (take-append p rest)

alpn_body-reads :
    (pre p rest : Bytes) (x : List Bytes)
    → alpn_body (pre ++ (encode_protocol p ++ rest)) (length pre) x
      ≡ some (length pre + length (encode_protocol p), add_protocol x p)
alpn_body-reads pre p rest x =
    let v = pre ++ (encode_protocol p ++ rest) in
    let total = length-append pre (encode_protocol p ++ rest) in
    let inner = length-append p rest in
    let fits : ltb (length v) (length pre + 1 + length p) ≡ false = le→ltb _ _ (omega arith) in
    let step : 1 + length p ≡ suc (length p) = omega arith in
    rw (byte_at-append pre (length p) (p ++ rest), fits, substr-front pre (length p) p rest, step)

alpn_body-stops :
    (pre tail : Bytes) (x : List Bytes)
    → Truncated tail
    → (alpn_test (pre ++ tail) (length pre) ≡ false)
      ⊎ (alpn_body (pre ++ tail) (length pre) x ≡ none)
alpn_body-stops pre [] x nothing = inl (le→ltb _ _ (omega (arith, length-append pre [])))
alpn_body-stops pre (len ∷ s) x (short h) =
    let total = length-append pre (len ∷ s) in
    let over : ltb (length (pre ++ len ∷ s)) (length pre + 1 + len) ≡ true =
      lt→ltb _ _ (omega arith) in
    inr (rw (byte_at-append pre len s, over))

scanning : Scanning alpn_test alpn_body encode_protocol FitsByte Truncated add_protocol
scanning = record {
  nonempty = λ p ok. omega arith;
  goes_on =
      λ pre p rest ok. lt→ltb _ _ (omega (arith, length-append pre (encode_protocol p ++ rest)));
  reads = λ pre p rest x ok. alpn_body-reads pre p rest x;
  stops = alpn_body-stops;
}

-- On length-prefixed protocols, up to the end or to a truncated rest, the parameter appends every
-- protocol that is not empty, in order, and changes nothing else.
pub parse_alpn_param-encode :
    (ps : List Bytes) (tail : Bytes) (r : HttpsRecordResult)
    → All FitsByte ps
    → Truncated tail
    → parse_alpn_param (encode_all encode_protocol ps tail) r
      ≡ record r { alpn = r.alpn ++ non_empty ps }
unfolding parse_alpn_param
parse_alpn_param-encode ps tail r ok stop = rw (
  scan-encode_all scanning ps tail (suc (length (encode_all encode_protocol ps tail))) r.alpn ok
      stop (omega arith),
  foldl-add_protocol,
)

look_alpn :
    (s : Bytes)
    → AreBytes s
    → Truncated s
      ⊎ ((p : Bytes) × (rest : Bytes) × (s ≡ encode_protocol p ++ rest)
          × FitsByte p
          × AreBytes rest)
look_alpn [] h = inl nothing
look_alpn (len ∷ s) h = elim (dec_lt (length s) len) [
  | yes less ↦ inl (short less)
  | no enough ↦
      let all = length-take len s (omega arith) in
      inr
        (take len s, drop len s, rw (all, take-append-drop), omega arith, All-drop IsByte len s h.1)
]

-- Every value is such a sequence with such a rest.
pub decompose_alpn :
    (value : Bytes)
    → AreBytes value
    → (ps : List Bytes) × (tail : Bytes) × (value ≡ encode_all encode_protocol ps tail)
      × All FitsByte ps
      × Truncated tail
decompose_alpn value h =
    decompose encode_protocol FitsByte Truncated AreBytes (λ p ok. omega arith) look_alpn
      (suc (length value)) value h (omega arith)

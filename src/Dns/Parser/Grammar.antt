-- ===== src/Dns/Parser/Grammar.antt =====
-- host_resolver_manager.cc: `HttpsRecordParser::Parse` against a grammar of the wire format.
use kiwi_network_patches.Prelude.{
  ℕ, suc, ◌+◌, ◌*◌, ◌<◌, ◌≡◌, refl, ap, sym, ◌∙◌, subst, false, not, some, List, [], ◌∷◌, length,
  ◌==◌, if◌then◌else◌, All, foldl, arith, ◌↔◌, some-injective, dec_lt, All-append_right,
}
use kiwi_network_patches.Prelude.Bytes.{Bytes, IsByte, AreBytes, eqs, text}
use kiwi_network_patches.Prelude.Drain.{encode_all, drain-encode_all}
use kiwi_network_patches.Prelude.Tlv.{Tlv, encode_tlv, FitsWire, TlvEnd, few, decompose_tlvs}
use kiwi_network_patches.Prelude.Outcome.{failed, done}
use kiwi_network_patches.Platform.Bytestring.{Cbs, IsCbs}
use kiwi_network_patches.Platform.DnsProtocol.{DnsProtocol}
use kiwi_network_patches.Dns.Record.{HttpsRecordResult, fresh_result}
use kiwi_network_patches.Dns.Params.{check_mandatory_params}
use kiwi_network_patches.Dns.Parser.{read_service_name, parse_params, parse}
use kiwi_network_patches.Dns.Parser.ServiceName.{
  encode_label, IsLabel, NameEnd, root, cut_name, cut_label, dotted, read_service_name-encode,
  decompose_name,
}
use kiwi_network_patches.Dns.Parser.Reading.{act, params_framing, parse_one_param-Stops}

-- The result before the parameters: the target, unless it is the root.
abbrev pub named : Bytes → HttpsRecordResult
named target =
    if not (eqs target (text "."))
    then record fresh_result { alternative_service = target }
    else fresh_result

pub named-target :
    (target : Bytes)
    → named target
      ≡ record fresh_result { alternative_service = if eqs target (text ".") then [] else target }
named-target target = ground arith

-- The result of an accepted record: every parameter in order, then the mandatory check.
abbrev pub accept : DnsProtocol → Bytes → List Tlv → HttpsRecordResult
accept d target ps =
    let r = foldl (act d) (named target) ps in record r { valid = check_mandatory_params r }

-- The byte strings, and what each of them means.
pub data Parses (d : DnsProtocol) (raw : Bytes) (r : HttpsRecordResult) : Type 0 where
  too_short : length raw < 2 → r ≡ fresh_result → Parses d raw r
  alias_mode : (s : Bytes) → raw ≡ 0 ∷ 0 ∷ s → r ≡ fresh_result → Parses d raw r
  bad_name :
      (hi lo : ℕ) (labels : List Bytes) (len : ℕ) (s : Bytes)
      → 0 < hi * 256 + lo
      → All IsLabel labels
      → length s < len
      → raw ≡ hi ∷ lo ∷ encode_all encode_label labels (len ∷ s)
      → r ≡ fresh_result
      → Parses d raw r
  unfinished_name :
      (hi lo : ℕ) (labels : List Bytes)
      → 0 < hi * 256 + lo
      → All IsLabel labels
      → raw ≡ hi ∷ lo ∷ encode_all encode_label labels []
      → r ≡ accept d (dotted labels) []
      → Parses d raw r
  service_mode :
      (hi lo : ℕ) (labels : List Bytes) (ps : List Tlv) (tail : Bytes)
      → 0 < hi * 256 + lo
      → All IsLabel labels
      → All FitsWire ps
      → TlvEnd tail
      → raw ≡ hi ∷ lo ∷ encode_all encode_label labels (0 ∷ encode_all encode_tlv ps tail)
      → r ≡ accept d (dotted labels) ps
      → Parses d raw r

module _ (cbs : Cbs) (laws : IsCbs cbs) (d : DnsProtocol) where
  parse_params-encode :
      (target : Bytes) (ps : List Tlv) (tail : Bytes)
      → All FitsWire ps
      → TlvEnd tail
      → parse_params cbs d target (encode_all encode_tlv ps tail) ≡ some (accept d target ps)
  unfolding parse_params
  parse_params-encode target ps tail ok end = rw (
    drain-encode_all (params_framing cbs laws d) ps tail
        (suc (length (encode_all encode_tlv ps tail))) (named target) ok
        (parse_one_param-Stops cbs laws d end) (omega arith),
    parse_params,
  )

  parse-service :
      (hi lo : ℕ) (s : Bytes) {target rest : Bytes}
      → 0 < hi * 256 + lo
      → read_service_name cbs s ≡ done (target, rest)
      → parse cbs d (hi ∷ lo ∷ s) ≡ parse_params cbs d target rest
  unfolding parse
  parse-service hi lo s pos e =
      let service : (hi * 256 + lo == 0) ≡ false = ground arith in
      rw (laws.get_u16-cons hi lo s, service, e, parse)

  parse-bad_name :
      (hi lo : ℕ) (s : Bytes)
      → 0 < hi * 256 + lo
      → read_service_name cbs s ≡ failed
      → parse cbs d (hi ∷ lo ∷ s) ≡ some fresh_result
  unfolding parse
  parse-bad_name hi lo s pos e =
      let service : (hi * 256 + lo == 0) ≡ false = ground arith in
      rw (laws.get_u16-cons hi lo s, service, e, parse)

  parse-too_short : (raw : Bytes) → length raw < 2 → parse cbs d raw ≡ some fresh_result
  unfolding parse
  parse-too_short [] h = rw (laws.get_u16-nil, parse)
  parse-too_short (a ∷ []) h = rw (laws.get_u16-one a, parse)
  parse-too_short (a ∷ b ∷ s) h = absurd (omega arith)

  parse-alias_mode : (s : Bytes) → parse cbs d (0 ∷ 0 ∷ s) ≡ some fresh_result
  unfolding parse
  parse-alias_mode s = rw (laws.get_u16-cons 0 0 s, parse)

  pub parse_of_Parses :
      (raw : Bytes) (r : HttpsRecordResult) → Parses d raw r → parse cbs d raw ≡ some r
  parse_of_Parses raw r (too_short h e) = rw e (parse-too_short raw h)
  parse_of_Parses raw r (alias_mode s e f) = rw (e, f) (parse-alias_mode s)
  parse_of_Parses raw r (bad_name hi lo labels len s pos ok h e f) =
      rw (e, f)
        (parse-bad_name hi lo _ pos (read_service_name-encode cbs laws labels (cut_label h) ok))
  parse_of_Parses raw r (unfinished_name hi lo labels pos ok e f) =
      rw (e, f)
        (parse-service hi lo _ pos (read_service_name-encode cbs laws labels cut_name ok)
          ∙ parse_params-encode (dotted labels) [] [] tt (few (omega arith)))
  parse_of_Parses raw r (service_mode hi lo labels ps tail pos ok fits end e f) =
      rw (e, f)
        (parse-service hi lo _ pos (read_service_name-encode cbs laws labels (root _) ok)
          ∙ parse_params-encode (dotted labels) ps tail fits end)

AreBytes-tail :
    (labels : List Bytes) (tail : Bytes)
    → AreBytes (encode_all encode_label labels tail)
    → AreBytes tail
AreBytes-tail [] tail h = h
AreBytes-tail (l ∷ labels) tail h =
    AreBytes-tail labels tail (All-append_right IsByte l (encode_all encode_label labels tail) h.1)

-- A record behind its priority has one of the forms.
Parses-body :
    (d : DnsProtocol) (hi lo : ℕ) (s : Bytes)
    → AreBytes s
    → 0 < hi * 256 + lo
    → (r : HttpsRecordResult) × Parses d (hi ∷ lo ∷ s) r
Parses-body d hi lo s h pos =
    let (labels, tail, eq, ok, end) = decompose_name s h in
    go labels ok end eq (AreBytes-tail labels tail (subst AreBytes eq h))
  where
    go :
        (labels : List Bytes) {tail : Bytes}
        → All IsLabel labels
        → NameEnd tail
        → s ≡ encode_all encode_label labels tail
        → AreBytes tail
        → (r : HttpsRecordResult) × Parses d (hi ∷ lo ∷ s) r
    go labels ok cut_name eq bytes =
        (_, unfinished_name hi lo labels pos ok (ap (λ t. hi ∷ lo ∷ t) eq) refl)
    go labels ok (cut_label {len} {s = t} less) eq bytes =
        (_, bad_name hi lo labels len t pos ok less (ap (λ t. hi ∷ lo ∷ t) eq) refl)
    go labels ok (root rest) eq bytes =
        let (ps, tail, split, fits, end) = decompose_tlvs rest bytes.1 in
        (
          _,
          service_mode hi lo labels ps tail pos ok fits end
              (ap (λ t. hi ∷ lo ∷ t) (eq ∙ ap (λ t. encode_all encode_label labels (0 ∷ t)) split))
              refl,
        )

-- Every byte string has one of the forms.
pub Parses-total :
    (d : DnsProtocol) (raw : Bytes) → AreBytes raw → (r : HttpsRecordResult) × Parses d raw r
Parses-total d (hi ∷ lo ∷ s) h = elim (dec_lt 0 (hi * 256 + lo)) [
  | yes pos ↦ Parses-body d hi lo s h.1.1 pos
  | no z ↦
      let z0 : hi ≡ 0 = omega arith in
      let z1 : lo ≡ 0 = omega arith in (fresh_result, alias_mode s (rw (z0, z1)) refl)
]
Parses-total d [] h = (fresh_result, too_short (omega arith) refl)
Parses-total d (_ ∷ []) h = (fresh_result, too_short (omega arith) refl)

-- On a byte string `Parse` returns a result exactly if the grammar gives the string that result.
pub parse_iff :
    (cbs : Cbs) (laws : IsCbs cbs) (d : DnsProtocol) (raw : Bytes) (r : HttpsRecordResult)
    → AreBytes raw
    → (parse cbs d raw ≡ some r) ↔ Parses d raw r
parse_iff cbs laws d raw r bytes = (
  λ e.
      let (r', p) = Parses-total d raw bytes in
      let same : r' ≡ r = some-injective _ _ (sym (parse_of_Parses cbs laws d raw r' p) ∙ e) in
      subst (Parses d raw) same p,
  parse_of_Parses cbs laws d raw r,
)

-- `Parse` returns on every byte string, and what it returns is what the grammar says.
pub parse_total :
    (cbs : Cbs) (laws : IsCbs cbs) (d : DnsProtocol) (raw : Bytes)
    → AreBytes raw
    → (r : HttpsRecordResult) × (parse cbs d raw ≡ some r) × Parses d raw r
parse_total cbs laws d raw bytes =
    let (r, p) = Parses-total d raw bytes in (r, parse_of_Parses cbs laws d raw r p, p)

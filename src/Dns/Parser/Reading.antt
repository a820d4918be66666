-- ===== src/Dns/Parser/Reading.antt =====
-- host_resolver_manager.cc: the loop over `ParseOneParam`, on the wire form of the parameters.
use kiwi_network_patches.Prelude.{
  ℕ, ◌+◌, ◌*◌, ◌/◌, ◌%◌, ◌≤◌, ◌≡◌, ◌∙◌, false, none, some, ◌∷◌, ◌++◌, length, take, drop, ltb,
  lt→ltb, le→ltb, arith, inr, length-append, take-append, drop-append,
}
use kiwi_network_patches.Prelude.Bytes.{Bytes}
use kiwi_network_patches.Prelude.Drain.{Framing, Stops}
use kiwi_network_patches.Prelude.Tlv.{Tlv, encode_tlv, FitsWire, TlvEnd, few, cut_value}
use kiwi_network_patches.Platform.Bytestring.{Cbs, IsCbs}
use kiwi_network_patches.Platform.DnsProtocol.{DnsProtocol}
use kiwi_network_patches.Dns.Record.{HttpsRecordResult}
use kiwi_network_patches.Dns.Parser.{parse_one_param, apply_param}

-- The effect of one parameter.
abbrev pub act : DnsProtocol → HttpsRecordResult → Tlv → HttpsRecordResult
act d r p = apply_param d p.tag p.value r

module _ (cbs : Cbs) (laws : IsCbs cbs) (d : DnsProtocol) where
  parse_one_param-whole :
      (k k' n n' : ℕ) (s : Bytes) (r : HttpsRecordResult)
      → n * 256 + n' ≤ length s
      → parse_one_param cbs d (k ∷ k' ∷ n ∷ n' ∷ s) r
        ≡ some (drop (n * 256 + n') s, apply_param d (k * 256 + k') (take (n * 256 + n') s) r)
  unfolding parse_one_param
  parse_one_param-whole k k' n n' s r h =
      let four : ltb (length (k ∷ k' ∷ n ∷ n' ∷ s)) 4 ≡ false = le→ltb _ _ (omega arith) in
      rw (
        four,
        laws.get_u16-cons k k' (n ∷ n' ∷ s),
        laws.get_u16-cons n n' s,
        le→ltb _ _ h,
        laws.get_bytes-enough s (n * 256 + n') h,
      )

  parse_one_param-reads :
      (p : Tlv) (rest : Bytes) (r : HttpsRecordResult)
      → FitsWire p
      → parse_one_param cbs d (encode_tlv p ++ rest) r ≡ some (rest, act d r p)
  parse_one_param-reads p rest r fits =
      let k = p.tag in
      let l = length p.value in
      let key : k / 256 % 256 * 256 + k % 256 ≡ k = omega (arith, fits.tag_fits) in
      let size : l / 256 % 256 * 256 + l % 256 ≡ l = omega (arith, fits.length_fits) in
      let room = length-append p.value rest in
      parse_one_param-whole _ _ _ _ (p.value ++ rest) r (omega arith)
      ∙ rw (key, size, take-append p.value rest, drop-append p.value rest)

  parse_one_param-stops :
      (s : Bytes) (r : HttpsRecordResult) → TlvEnd s → parse_one_param cbs d s r ≡ none
  unfolding parse_one_param
  parse_one_param-stops s r (few h) = rw (lt→ltb _ _ h)
  parse_one_param-stops s r (cut_value {k} {k'} {n} {n'} {s = t} h) =
      let four : ltb (length (k ∷ k' ∷ n ∷ n' ∷ t)) 4 ≡ false = le→ltb _ _ (omega arith) in
      rw (four, laws.get_u16-cons k k' (n ∷ n' ∷ t), laws.get_u16-cons n n' t, lt→ltb _ _ h)

  pub parse_one_param-Stops : {s : Bytes} → TlvEnd s → Stops (parse_one_param cbs d) s
  parse_one_param-Stops {s} end = inr (λ r. parse_one_param-stops s r end)

  pub params_framing : Framing (parse_one_param cbs d) encode_tlv FitsWire (act d)
  params_framing = record { nonempty = λ p ok. omega arith; reads = parse_one_param-reads }

-- ===== src/Network/Abstract/Unique.antt =====
-- The calls say which ECH configuration a key has.
use kiwi_network_patches.Prelude.{
  ◌≡◌, refl, sym, ap, ◌∙◌, true, false, Option, some, some-injective, List, [], ◌∷◌,
}
use mathlib.Core.Option.{some-ne-none}
use mathlib.Core.Bool.{true≢false}
use kiwi_network_patches.Prelude.Bytes.{Bytes, is_empty}
use kiwi_network_patches.Platform.Bytestring.{Cbs, IsCbs}
use kiwi_network_patches.Platform.DnsProtocol.{DnsProtocol}
use kiwi_network_patches.Dns.Record.{HttpsRecordResult}
use kiwi_network_patches.Dns.Parser.Grammar.{Parses, parse_of_Parses}
use kiwi_network_patches.Dns.Process.FirstValid.{FirstValid, exhausted, skip, found}
use kiwi_network_patches.Network.{Label}
use kiwi_network_patches.Network.Abstract.{
  Latest, never, answered, other_key, no_record, no_config, no_answer,
}

module _ (cbs : Cbs) (laws : IsCbs cbs) (d : DnsProtocol) where
  Parses-unique :
      (raw : Bytes) (r r' : HttpsRecordResult) → Parses d raw r → Parses d raw r' → r ≡ r'
  Parses-unique raw r r' p p' =
      some-injective _ _
        (sym (parse_of_Parses cbs laws d raw r p) ∙ parse_of_Parses cbs laws d raw r' p')

  FirstValid-unique :
      (records : List Bytes) (o o' : Option HttpsRecordResult)
      → FirstValid d records o
      → FirstValid d records o'
      → o ≡ o'
  FirstValid-unique [] _ _ exhausted exhausted = refl
  FirstValid-unique (raw ∷ records) o o' (skip r p v rest) (skip r' p' v' rest') =
      FirstValid-unique records o o' rest rest'
  FirstValid-unique (raw ∷ records) o _ (skip r p v rest) (found r' p' v') = absurd (
      true≢false
        (sym v' ∙ ap (λ (x : HttpsRecordResult). x.valid) (Parses-unique raw r' r p' p) ∙ v))
  FirstValid-unique (raw ∷ records) _ o' (found r p v) (skip r' p' v' rest') = absurd (
      true≢false
        (sym v ∙ ap (λ (x : HttpsRecordResult). x.valid) (Parses-unique raw r r' p p') ∙ v'))
  FirstValid-unique (raw ∷ records) _ _ (found r p v) (found r' p' v') =
      ap some (Parses-unique raw r r' p p')

  answered-no_config :
      {records : List Bytes} (r r' : HttpsRecordResult)
      → FirstValid d records (some r)
      → FirstValid d records (some r')
      → is_empty r.ech_config ≡ false
      → is_empty r'.ech_config ≡ true
      → ⊥
  answered-no_config r r' f f' e e' =
      let same : r' ≡ r = some-injective _ _ (FirstValid-unique _ _ _ f' f) in
      true≢false (sym e' ∙ ap (λ (x : HttpsRecordResult). is_empty x.ech_config) same ∙ e)

  module _ {N K : Type 0} (j : N) where
    pub Latest-unique :
        (labels : List (Label N K)) (c c' : Bytes)
        → Latest d j labels c
        → Latest d j labels c'
        → c ≡ c'
    Latest-unique [] _ _ never never = refl
    Latest-unique (l ∷ labels) _ _ (answered r e f n) (answered r' e' f' n') =
        ap (λ (x : HttpsRecordResult). x.ech_config)
          (some-injective _ _ (FirstValid-unique _ _ _ f f'))
    Latest-unique (l ∷ labels) _ _ (answered r e f n) (other_key ne h) = absurd (ne e)
    Latest-unique (l ∷ labels) _ _ (answered r e f n) (no_record f' h) =
        absurd (some-ne-none r (FirstValid-unique _ _ _ f f'))
    Latest-unique (l ∷ labels) _ _ (answered r e f n) (no_config r' f' n' h) =
        absurd (answered-no_config r r' f f' n n')
    Latest-unique (l ∷ labels) _ _ (other_key ne h) (answered r e f n) = absurd (ne e)
    Latest-unique (l ∷ labels) _ _ (no_record f' h) (answered r e f n) =
        absurd (some-ne-none r (FirstValid-unique _ _ _ f f'))
    Latest-unique (l ∷ labels) _ _ (no_config r' f' n' h) (answered r e f n) =
        absurd (answered-no_config r r' f f' n n')
    Latest-unique (l ∷ labels) c c' (no_answer ok h) (no_answer ok' h') =
        Latest-unique labels c c' h h'
    Latest-unique (l ∷ labels) c c' (no_answer bad h) (answered r e f n) = absurd bad
    Latest-unique (l ∷ labels) c c' (other_key ne h) (other_key ne' h') =
        Latest-unique labels c c' h h'
    Latest-unique (l ∷ labels) c c' (other_key ne h) (no_record f' h') =
        Latest-unique labels c c' h h'
    Latest-unique (l ∷ labels) c c' (other_key ne h) (no_config r' f' n' h') =
        Latest-unique labels c c' h h'
    Latest-unique (l ∷ labels) c c' (other_key ne h) (no_answer bad h') = absurd bad
    Latest-unique (l ∷ labels) c c' (no_answer bad h') (other_key ne h) = absurd bad
    Latest-unique (l ∷ labels) c c' (no_record f h) (other_key ne' h') =
        Latest-unique labels c c' h h'
    Latest-unique (l ∷ labels) c c' (no_record f h) (no_record f' h') =
        Latest-unique labels c c' h h'
    Latest-unique (l ∷ labels) c c' (no_record f h) (no_config r' f' n' h') =
        Latest-unique labels c c' h h'
    Latest-unique (l ∷ labels) c c' (no_record f h) (no_answer bad h') = absurd bad
    Latest-unique (l ∷ labels) c c' (no_answer bad h') (no_record f h) = absurd bad
    Latest-unique (l ∷ labels) c c' (no_config r f n h) (other_key ne' h') =
        Latest-unique labels c c' h h'
    Latest-unique (l ∷ labels) c c' (no_config r f n h) (no_record f' h') =
        Latest-unique labels c c' h h'
    Latest-unique (l ∷ labels) c c' (no_config r f n h) (no_config r' f' n' h') =
        Latest-unique labels c c' h h'
    Latest-unique (l ∷ labels) c c' (no_config r f n h) (no_answer bad h') = absurd bad
    Latest-unique (l ∷ labels) c c' (no_answer bad h') (no_config r f n h) = absurd bad
    Latest-unique (l ∷ labels) c c' (answered r e f n) (no_answer bad h') = absurd bad

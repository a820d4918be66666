-- ===== src/Tls/Connection/Result.antt =====
-- ssl_client_socket.cc: what `AnalyzeKiwiSSLResult` reports.
use kiwi_network_patches.Prelude.{
  ◌≡◌, refl, ◌∙◌, ap, ◌↔◌, ◌⊎◌, subst, sym, Bool, true, ◌||◌, some, [], ◌∷◌, ◌++◌, arith,
  Bool-cases, inl, inr,
}
use mathlib.Core.Bool.{false≢true}
use kiwi_network_patches.Prelude.Bytes.{Bytes, text}
use kiwi_network_patches.Tls.Connection.{
  starts_with, strstr, did_use_post_quantum_keys, SslInfo, analyze_kiwi_ssl_result,
}

-- `needle` stands in `s`.
abbrev pub Occurs : Bytes → Bytes → Type 0
Occurs needle s = (pre : Bytes) × (post : Bytes) × (s ≡ pre ++ (needle ++ post))

starts_with_sound :
    (needle s : Bytes) → starts_with needle s ≡ true → (post : Bytes) × (s ≡ needle ++ post)
starts_with_sound [] s h = (s, refl)
starts_with_sound (c ∷ needle) [] h = absurd (cc)
starts_with_sound (c ∷ needle) (b ∷ s) h =
    let (post, e) = starts_with_sound needle s (ground arith) in (post, ground arith)

starts_with-append : (needle post : Bytes) → starts_with needle (needle ++ post) ≡ true
starts_with-append [] post = refl
starts_with-append (c ∷ needle) post = ground (arith, starts_with-append needle post)

strstr_sound : (needle s : Bytes) → strstr needle s ≡ true → Occurs needle s
unfolding strstr
strstr_sound needle [] h = let (post, e) = starts_with_sound needle [] h in ([], post, e)
strstr_sound needle (b ∷ s) h = elim (Bool-cases (starts_with needle (b ∷ s))) [
  | inl here ↦ let (post, e) = starts_with_sound needle (b ∷ s) here in ([], post, e)
  | inr not_here ↦
      let (pre, post, e) = strstr_sound needle s (ground arith) in (b ∷ pre, post, ap (◌∷◌ b) e)
]

strstr_of_starts_with : (needle s : Bytes) → starts_with needle s ≡ true → strstr needle s ≡ true
unfolding strstr
strstr_of_starts_with needle [] h = h
strstr_of_starts_with needle (b ∷ s) h = rw h

strstr-append : (needle pre post : Bytes) → strstr needle (pre ++ (needle ++ post)) ≡ true
unfolding strstr
strstr-append needle [] post = strstr_of_starts_with needle _ (starts_with-append needle post)
strstr-append needle (b ∷ pre) post = ground (arith, strstr-append needle pre post)

pub strstr_iff : (needle s : Bytes) → (strstr needle s ≡ true) ↔ Occurs needle s
strstr_iff needle s = (
  strstr_sound needle s,
  λ (pre, post, e). subst (λ x. strstr needle x ≡ true) (sym e) (strstr-append needle pre post),
)

-- After the analysis of a connection with a named group, `post_quantum_key_exchange` is set exactly
-- if it was set before or "Kyber" stands somewhere in the name, and `ech_accepted` exactly if it was
-- set before or BoringSSL accepted ECH.
pub analyze_kiwi_ssl_result_iff :
    (accepted : Bool) (name : Bytes) (info : SslInfo)
    → (((analyze_kiwi_ssl_result
            (some (record { accepted = accepted; group_name = some name }))
            info).post_quantum_key_exchange
          ≡ true)
        ↔ (Occurs (text "Kyber") name ⊎ (info.post_quantum_key_exchange ≡ true)))
      × ((analyze_kiwi_ssl_result
            (some (record { accepted = accepted; group_name = some name }))
            info).ech_accepted
          ≡ (accepted || info.ech_accepted))
unfolding analyze_kiwi_ssl_result did_use_post_quantum_keys
analyze_kiwi_ssl_result_iff accepted name info = elim (Bool-cases (strstr (text "Kyber") name)) [
  | inl e ↦ ((λ _. inl ((strstr_iff _ name).0 e), λ _. ground (arith, e)), ground (arith, e))
  | inr e ↦ (
    (
      λ h. inr (ground (arith, e)),
      λ h. elim h [
        | inl o ↦ absurd (false≢true (sym e ∙ (strstr_iff _ name).1 o))
        | inr set ↦ ground (arith, e)
      ],
    ),
    ground (arith, e),
  )
]

-- ===== src/Tls/EchManager/ConfigList.antt =====
-- ssl_client_socket.cc: what the loops of `ConfigureECH` and `ECHRetryCallback` read. An item is
-- an ECHConfig, its tag the version.
use kiwi_network_patches.Prelude.{
  ℕ, suc, ◌+◌, ◌*◌, ◌/◌, ◌%◌, ◌≡◌, refl, ◌∙◌, Bool, true, false, not, ◌||◌, none, some, List, [],
  ◌∷◌, ◌++◌, length, if◌then◌else◌, All, foldl, map, arith, ◌⊎◌, inl, inr, length-append,
  take-append, drop-append, Bool-cases,
}
use kiwi_network_patches.Prelude.Bytes.{Bytes, u16}
use kiwi_network_patches.Prelude.Drain.{encode_all, drain, drain-encode_all, Framing}
use kiwi_network_patches.Prelude.Tlv.{Tlv, encode_tlv, FitsWire, TlvEnd, few, cut_value}
use kiwi_network_patches.Platform.Bytestring.{Cbs, IsCbs}
use kiwi_network_patches.Platform.BoringSsl.{keys_add, Trace, SslEnv}
use kiwi_network_patches.Tls.EchManager.{
  KeysState, is_supported, add_key, configure_body, retry_body,
}

-- The effect of one ECHConfig in `ConfigureECH`: a supported version is offered, another is not.
abbrev pub offer : SslEnv → KeysState → Tlv → KeysState
offer env x c = if not (is_supported c.tag) then x else add_key env c.value x

-- The effect of one item in `ECHRetryCallback`: it is offered.
abbrev pub offer_any : SslEnv → KeysState → Tlv → KeysState
offer_any env x c = add_key env c.value x

module _ (cbs : Cbs) (laws : IsCbs cbs) where
  read_item :
      (c : Tlv) (rest : Bytes)
      → FitsWire c
      → (s : Bytes) × (cbs.get_u16 (encode_tlv c ++ rest) ≡ some (c.tag, s))
        × (cbs.get_u16_length_prefixed s ≡ some (c.value, rest))
  read_item c rest fits =
      let t = c.tag in
      let l = length c.value in
      let tag : t / 256 % 256 * 256 + t % 256 ≡ t = omega (arith, fits.tag_fits) in
      let size : l / 256 % 256 * 256 + l % 256 ≡ l = omega (arith, fits.length_fits) in
      let room = length-append c.value rest in
      let prefixed =
        laws.get_u16_length_prefixed-enough (l / 256 % 256) (l % 256) (c.value ++ rest)
          (omega arith) in
      (
        u16 l ++ (c.value ++ rest),
        laws.get_u16-cons (t / 256 % 256) (t % 256) _ ∙ rw tag,
        prefixed ∙ rw (size, take-append c.value rest, drop-append c.value rest),
      )

  read_end :
      (s : Bytes)
      → TlvEnd s
      → (cbs.get_u16 s ≡ none)
        ⊎ ((n : ℕ) × (t : Bytes) × (cbs.get_u16 s ≡ some (n, t))
            × (cbs.get_u16_length_prefixed t ≡ none))
  read_end [] (few h) = inl laws.get_u16-nil
  read_end (a ∷ []) (few h) = inl (laws.get_u16-one a)
  read_end (a ∷ b ∷ []) (few h) =
      inr (_, [], laws.get_u16-cons a b [], laws.get_u16_length_prefixed-nil)
  read_end (a ∷ b ∷ c ∷ []) (few h) =
      inr (_, c ∷ [], laws.get_u16-cons a b (c ∷ []), laws.get_u16_length_prefixed-one c)
  read_end (a ∷ b ∷ c ∷ e ∷ s) (few h) = absurd (omega arith)
  read_end s (cut_value {k} {k'} {n} {n'} {s = t} h) = inr (
    _,
    n ∷ n' ∷ t,
    laws.get_u16-cons k k' (n ∷ n' ∷ t),
    laws.get_u16_length_prefixed-short n n' t h,
  )

  module _ (env : SslEnv) where
    configure_body-reads :
        (c : Tlv) (rest : Bytes) (x : KeysState)
        → FitsWire c
        → configure_body cbs env (encode_tlv c ++ rest) x ≡ some (rest, offer env x c)
    unfolding configure_body
    configure_body-reads c rest x fits =
        let (s, tag, item) = read_item c rest fits in
        elim (Bool-cases (is_supported c.tag)) [
          | inl v ↦ rw (tag, item, v, configure_body)
          | inr v ↦ rw (tag, item, v, configure_body)
        ]

    configure_body-stops :
        (s : Bytes) (x : KeysState) → TlvEnd s → configure_body cbs env s x ≡ none
    unfolding configure_body
    configure_body-stops s x end = elim (read_end s end) [
      | inl e ↦ rw (e, configure_body)
      | inr (n, t, e, f) ↦ rw (e, f, configure_body)
    ]

    retry_body-reads :
        (c : Tlv) (rest : Bytes) (x : KeysState)
        → FitsWire c
        → retry_body cbs env (encode_tlv c ++ rest) x ≡ some (rest, offer_any env x c)
    unfolding retry_body
    retry_body-reads c rest x fits =
        let (s, tag, item) = read_item c rest fits in rw (tag, item, retry_body)

    retry_body-stops : (s : Bytes) (x : KeysState) → TlvEnd s → retry_body cbs env s x ≡ none
    unfolding retry_body
    retry_body-stops s x end = elim (read_end s end) [
      | inl e ↦ rw (e, retry_body)
      | inr (n, t, e, f) ↦ rw (e, f, retry_body)
    ]

    pub configure_framing : Framing (configure_body cbs env) encode_tlv FitsWire (offer env)
    configure_framing = record { nonempty = λ c fits. omega arith; reads = configure_body-reads }

    retry_framing : Framing (retry_body cbs env) encode_tlv FitsWire (offer_any env)
    retry_framing = record { nonempty = λ c fits. omega arith; reads = retry_body-reads }

    module _ (configs : List Tlv) (tail : Bytes) (ok : All FitsWire configs) (end : TlvEnd tail)
        (x : KeysState) where
      -- The loop of `ConfigureECH` offers the supported configs of the list in order.
      pub configure_loop :
          drain
            (configure_body cbs env)
            (suc (length (encode_all encode_tlv configs tail)))
            (encode_all encode_tlv configs tail)
            x
          ≡ some (foldl (offer env) x configs)
      configure_loop =
          drain-encode_all configure_framing configs tail
            (suc (length (encode_all encode_tlv configs tail))) x ok
            (inr (λ y. configure_body-stops tail y end)) (omega arith)

      -- That of `ECHRetryCallback` offers them all.
      pub retry_loop :
          drain
            (retry_body cbs env)
            (suc (length (encode_all encode_tlv configs tail)))
            (encode_all encode_tlv configs tail)
            x
          ≡ some (foldl (offer_any env) x configs)
      retry_loop =
          drain-encode_all retry_framing configs tail
            (suc (length (encode_all encode_tlv configs tail))) x ok
            (inr (λ y. retry_body-stops tail y end)) (omega arith)

-- The values of the supported configs, in order.
abbrev pub supported_values : List Tlv → List Bytes
supported_values [] = []
supported_values (c ∷ configs) =
    if is_supported c.tag then c.value ∷ supported_values configs else supported_values configs

-- The trace behind `SSL_ECH_KEYS_add` of each value in turn.
abbrev pub adds : List Bytes → Trace → Trace
adds [] t = t
adds (v ∷ values) t = adds values (keys_add v ∷ t)

-- Whether one of these calls succeeds, each at the trace of its time.
abbrev pub any_accepted : SslEnv → List Bytes → Trace → Bool
any_accepted env [] t = false
any_accepted env (v ∷ values) t =
    env.accepts t (keys_add v) || any_accepted env values (keys_add v ∷ t)

or_regroup : (a b c : Bool) → ((if a then true else b) || c) ≡ (b || (a || c))
or_regroup true true c = refl
or_regroup true false c = refl
or_regroup false b c = refl

pub foldl-offer :
    (env : SslEnv) (configs : List Tlv) (b : Bool) (t : Trace)
    → foldl (offer env) (record { trace = t; applied = b }) configs ≡ record {
      trace = adds (supported_values configs) t;
      applied = b || any_accepted env (supported_values configs) t;
    }
foldl-offer env [] true t = refl
foldl-offer env [] false t = refl
foldl-offer env (c ∷ configs) b t = elim (Bool-cases (is_supported c.tag)) [
  | inr v ↦ rw v (foldl-offer env configs b t)
  | inl v ↦ rw v (foldl-offer env configs _ _ ∙ rw or_regroup)
]

abbrev pub values : List Tlv → List Bytes
values = map (λ c. c.value)

pub foldl-offer_any :
    (env : SslEnv) (configs : List Tlv) (b : Bool) (t : Trace)
    → foldl (offer_any env) (record { trace = t; applied = b }) configs ≡ record {
      trace = adds (values configs) t;
      applied = b || any_accepted env (values configs) t;
    }
foldl-offer_any env [] true t = refl
foldl-offer_any env [] false t = refl
foldl-offer_any env (c ∷ configs) b t = foldl-offer_any env configs _ _ ∙ rw or_regroup

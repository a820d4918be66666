-- ===== src/Tls/EchManager/Configure.antt =====
-- ssl_client_socket.cc: what `ConfigureECH` answers, and which calls it makes.
use kiwi_network_patches.Prelude.{
  ◌+◌, ◌<◌, ◌≡◌, ◌⊎◌, inl, inr, Option, sym, ◌∙◌, Bool, true, false, not, ◌&&◌, some, List, [], ◌∷◌,
  ◌++◌, length, if◌then◌else◌, some-injective, subst, All, arith,
}
use kiwi_network_patches.Prelude.Bytes.{Bytes, AreBytes, is_empty, u16}
use kiwi_network_patches.Prelude.Drain.{encode_all}
use kiwi_network_patches.Prelude.Tlv.{Tlv, encode_tlv, FitsWire, TlvEnd, cut_value, decompose_tlvs}
use kiwi_network_patches.Platform.Features.{FeatureList, encrypted_client_hello}
use kiwi_network_patches.Platform.Bytestring.{Cbs, IsCbs}
use kiwi_network_patches.Platform.BoringSsl.{
  EchResult, keys_new, set_ech_keys, set_ech_grease_enabled, record_result, failed_fallback,
  no_config, not_attempted, Trace, SslEnv,
}
use kiwi_network_patches.Tls.EchManager.{KeysState, configure_ech, apply_keys, enable_ech_grease}
use kiwi_network_patches.Tls.EchManager.ConfigList.{
  configure_loop, supported_values, adds, any_accepted, foldl-offer,
}

-- The trace behind `SSL_ECH_KEYS_new` and the offers.
abbrev pub offered : List Tlv → Trace → Trace
offered configs t = adds (supported_values configs) (keys_new ∷ t)

-- Whether some offer is accepted, and then the keys.
abbrev pub keys_usable : SslEnv → List Tlv → Trace → Bool
keys_usable env configs t = any_accepted env (supported_values configs) (keys_new ∷ t)

abbrev pub keys_taken : SslEnv → List Tlv → Trace → Bool
keys_taken env configs t = keys_usable env configs t && env.accepts (offered configs t) set_ech_keys

-- `ConfigureECH` as a decision over the configs of the list.
ech_outcome : FeatureList → Cbs → SslEnv → Bool → List Tlv → Trace → Bool × Trace
unfolding apply_keys enable_ech_grease
ech_outcome features cbs env empty configs t =
    if not (features encrypted_client_hello)
    then (false, record_result not_attempted ∷ t)
    else if empty
    then (false, record_result no_config ∷ set_ech_grease_enabled ∷ t)
    else if not (env.accepts t keys_new)
    then (false, record_result failed_fallback ∷ keys_new ∷ t)
    else if not (keys_usable env configs t)
    then (false, record_result failed_fallback ∷ set_ech_grease_enabled ∷ offered configs t)
    else if not (env.accepts (offered configs t) set_ech_keys)
    then (
      false,
      record_result failed_fallback ∷ set_ech_grease_enabled ∷ set_ech_keys ∷ offered configs t,
    )
    else (true, set_ech_keys ∷ offered configs t)

answer-cases :
    (x : Option (Bool × Trace)) (b : Bool) (t : Trace)
    → x ≡ some (b, t)
    → (x ≡ some (true, t)) ⊎ (x ≡ some (false, t))
answer-cases x true t h = inl h
answer-cases x false t h = inr h

module _ (features : FeatureList) (cbs : Cbs) (laws : IsCbs cbs) (env : SslEnv) where
  module _ (configs : List Tlv) (tail : Bytes) (t : Trace) (ok : All FitsWire configs)
      (end : TlvEnd tail) where
    abbrev list : Bytes
    list = encode_all encode_tlv configs tail

    configure_ech-list :
        configure_ech cbs env features list t
        ≡ some (ech_outcome features cbs env (is_empty list) configs t)
    unfolding configure_ech apply_keys enable_ech_grease ech_outcome
    configure_ech-list =
        let start : KeysState = record { trace = keys_new ∷ t; applied = false } in
        rw (configure_loop cbs laws env configs tail ok end start, foldl-offer, configure_ech)
          (ground arith)

  configure_ech-eq :
      (config : Bytes) (configs : List Tlv) (tail : Bytes) (t : Trace)
      → config ≡ encode_all encode_tlv configs tail
      → All FitsWire configs
      → TlvEnd tail
      → configure_ech cbs env features config t
        ≡ some (ech_outcome features cbs env (is_empty config) configs t)
  configure_ech-eq config configs tail t eq ok end =
      subst
        (λ c.
          configure_ech cbs env features c t
          ≡ some (ech_outcome features cbs env (is_empty c) configs t))
        (sym eq) (configure_ech-list configs tail t ok end)

  -- On every configuration `ConfigureECH` returns, and it says yes exactly if the feature is on,
  -- the configuration is not empty, and BoringSSL hands out a key object, accepts a config of a
  -- supported version from the list, and accepts the keys.
  pub configure_ech-answer :
      (config : Bytes) (t : Trace)
      → AreBytes config
      → (configs : List Tlv) × (tail : Bytes) × (config ≡ encode_all encode_tlv configs tail)
        × All FitsWire configs
        × TlvEnd tail
        × (t' : Trace) × (configure_ech cbs env features config t
            ≡ some (
              features encrypted_client_hello
                  && (not (is_empty config)
                      && (env.accepts t keys_new && keys_taken env configs t)),
              t',
            ))
  unfolding ech_outcome
  configure_ech-answer config t bytes =
      let (configs, tail, eq, ok, end) = decompose_tlvs config bytes in
      let run = configure_ech-eq config configs tail t eq ok end in
      (
        configs,
        tail,
        eq,
        ok,
        end,
        (ech_outcome features cbs env (is_empty config) configs t).1,
        run ∙ ground arith,
      )

  -- When it says yes, the calls were: a new key object, then an offer of each config of a
  -- supported version, in the order of the list and with its contents alone, of which one was
  -- accepted, and last the keys for the connection. Nothing is recorded.
  configure_ech-success :
      (config : Bytes) (t t' : Trace)
      → AreBytes config
      → configure_ech cbs env features config t ≡ some (true, t')
      → (configs : List Tlv) × (tail : Bytes) × (config ≡ encode_all encode_tlv configs tail)
        × All FitsWire configs
        × TlvEnd tail
        × (t' ≡ set_ech_keys ∷ adds (supported_values configs) (keys_new ∷ t))
        × (keys_taken env configs t ≡ true)
  unfolding ech_outcome
  configure_ech-success config t t' bytes h =
      let (configs, tail, eq, ok, end) = decompose_tlvs config bytes in
      let same = some-injective _ _ (sym (configure_ech-eq config configs tail t eq ok end) ∙ h) in
      (configs, tail, eq, ok, end, ground arith, ground arith)

  -- When it says no although the feature is on and a key object was to be had, the last calls
  -- turn GREASE on and record the reason.
  configure_ech-grease :
      (config : Bytes) (t t' : Trace)
      → AreBytes config
      → features encrypted_client_hello ≡ true
      → env.accepts t keys_new ≡ true
      → configure_ech cbs env features config t ≡ some (false, t')
      → (r : EchResult) × (t'' : Trace) × (t' ≡ record_result r ∷ set_ech_grease_enabled ∷ t'')
  unfolding ech_outcome
  configure_ech-grease config t t' bytes on new h =
      let (configs, tail, eq, ok, end) = decompose_tlvs config bytes in
      let same = some-injective _ _ (sym (configure_ech-eq config configs tail t eq ok end) ∙ h) in
      ground arith

  -- With the feature on and a key object to be had `ConfigureECH` returns on every configuration.
  -- Either it says yes, and its calls were the new key object, an offer of the contents of each config
  -- of a supported version in the order of the list, of which one was accepted, and last the keys for
  -- the connection; or it says no, and its last calls turn GREASE on and record a reason.
  pub configure_ech-calls :
      (config : Bytes) (t : Trace)
      → AreBytes config
      → features encrypted_client_hello ≡ true
      → env.accepts t keys_new ≡ true
      → ((configs : List Tlv) × (tail : Bytes) × (config ≡ encode_all encode_tlv configs tail)
          × All FitsWire configs
          × TlvEnd tail
          × (configure_ech cbs env features config t
              ≡ some (true, set_ech_keys ∷ adds (supported_values configs) (keys_new ∷ t)))
          × (keys_taken env configs t ≡ true))
        ⊎ ((r : EchResult) × (t' : Trace) × (configure_ech cbs env features config t
              ≡ some (false, record_result r ∷ set_ech_grease_enabled ∷ t')))
  configure_ech-calls config t bytes on new =
      let (_, _, _, _, _, t', run) = configure_ech-answer config t bytes in
      elim (answer-cases _ _ t' run) [
        | inl success ↦
            let (configs, tail, eq, ok, end, same, taken) =
              configure_ech-success config t t' bytes success in
            inl (configs, tail, eq, ok, end, rw (← same) success, taken)
        | inr failure ↦
            let (r, t'', same) = configure_ech-grease config t t' bytes on new failure in
            inr (r, t'', rw (← same) failure)
      ]

  -- A list in the documented form, its length in front of a config of version 0xFE0D, is never
  -- accepted while the rest has fewer than 65037 bytes: the length is taken for a version, and the
  -- version for a length that the list does not have.
  pub configure_ech-length_prefixed :
      (rest : Bytes) (t : Trace)
      → length rest < 65037
      → (t' : Trace) × (configure_ech cbs env features
            (u16 (length rest + 2) ++ (u16 0xFE0D ++ rest))
            t
          ≡ some (false, t'))
  unfolding ech_outcome
  configure_ech-length_prefixed rest t h =
      let list = u16 (length rest + 2) ++ (u16 0xFE0D ++ rest) in
      let run = configure_ech-list [] list t tt (cut_value h) in
      ((ech_outcome features cbs env false [] t).1, run ∙ ground arith)

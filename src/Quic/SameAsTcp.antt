-- ===== src/Quic/SameAsTcp.antt =====
-- quic_ech_integration.cc: `ConfigureECHForQuicSession` beside `ECHManager::ConfigureECH`.
use kiwi_network_patches.Prelude.{
  ◌≡◌, ◌∙◌, ap, refl, Bool, true, false, some, ◌∷◌, fun_ext, arith, if◌then◌else◌,
}
use kiwi_network_patches.Prelude.Bytes.{Bytes, AreBytes, is_empty}
use kiwi_network_patches.Platform.Features.{FeatureList, encrypted_client_hello}
use kiwi_network_patches.Platform.Bytestring.{Cbs, IsCbs}
use kiwi_network_patches.Platform.BoringSsl.{
  failed_fallback, keys_new, record_result, set_ech_grease_enabled, Trace, SslEnv,
}
use kiwi_network_patches.Tls.EchManager.Configure.{configure_ech-answer}
use kiwi_network_patches.Tls.EchManager.{
  KeysState, configure_body, configure_ech, apply_keys, enable_ech_grease,
}
use kiwi_network_patches.Quic.{quic_body, quic_apply_keys, configure_ech_for_quic_session}

module _ (cbs : Cbs) (env : SslEnv) where
  quic_body-eq : (s : Bytes) (x : KeysState) → quic_body cbs env s x ≡ configure_body cbs env s x
  unfolding quic_body configure_body
  quic_body-eq s x = ground arith

  quic_bodies : quic_body cbs env ≡ configure_body cbs env
  quic_bodies = fun_ext (λ s. fun_ext (λ x. quic_body-eq s x))

  module _ (features : FeatureList) where
    -- Where the configuration succeeds over TCP, the QUIC session makes the same calls, and GREASE
    -- is turned on behind them.
    pub quic-success :
        (config : Bytes) (t t' : Trace)
        → configure_ech cbs env features config t ≡ some (true, t')
        → configure_ech_for_quic_session cbs env features config t
          ≡ some (set_ech_grease_enabled ∷ t')
    unfolding configure_ech configure_ech_for_quic_session apply_keys quic_apply_keys
    quic-success config t t' h = rw quic_bodies (ground arith)

    -- Where it fails over TCP although a key object was to be had, the QUIC session makes the same
    -- calls but the last two: it turns no GREASE on, and records nothing.
    pub quic-failure :
        (config : Bytes) (t t' : Trace)
        → features encrypted_client_hello ≡ true
        → is_empty config ≡ false
        → env.accepts t keys_new ≡ true
        → configure_ech cbs env features config t ≡ some (false, t')
        → (t'' : Trace) × (t' ≡ record_result failed_fallback ∷ set_ech_grease_enabled ∷ t'')
          × (configure_ech_for_quic_session cbs env features config t ≡ some t'')
    unfolding configure_ech configure_ech_for_quic_session apply_keys quic_apply_keys
        enable_ech_grease
    quic-failure config t t' on ne new h = rw quic_bodies (ground arith)

    quic-configured :
        (config : Bytes) (t t' : Trace) (b : Bool)
        → features encrypted_client_hello ≡ true
        → is_empty config ≡ false
        → env.accepts t keys_new ≡ true
        → configure_ech cbs env features config t ≡ some (b, t')
        → (t'' : Trace) × (t'
            ≡ (if b then t'' else record_result failed_fallback ∷ set_ech_grease_enabled ∷ t''))
          × (configure_ech_for_quic_session cbs env features config t
              ≡ some (if b then set_ech_grease_enabled ∷ t'' else t''))
    quic-configured config t t' true on ne new h = (t', refl, quic-success config t t' h)
    quic-configured config t t' false on ne new h = quic-failure config t t' on ne new h

    configure_ech-returns :
        (config : Bytes) (t : Trace)
        → IsCbs cbs
        → AreBytes config
        → (b : Bool) × (t' : Trace) × (configure_ech cbs env features config t ≡ some (b, t'))
    configure_ech-returns config t laws bytes =
        let (_, _, _, _, _, t', run) = configure_ech-answer features cbs laws env config t bytes in
        (_, t', run)

    -- With the feature on, a configuration of bytes that is not empty and a key object to be had, both
    -- functions return, over a CBS with the documented behaviour. The QUIC session makes the calls
    -- that `ConfigureECH` makes; but where that says yes, GREASE is turned on behind them, and where
    -- it says no, its last two are left out: GREASE and the record of the failure.
    pub quic-configure_ech :
        (config : Bytes) (t : Trace)
        → IsCbs cbs
        → AreBytes config
        → features encrypted_client_hello ≡ true
        → is_empty config ≡ false
        → env.accepts t keys_new ≡ true
        → (b : Bool) × (t'' : Trace) × (configure_ech cbs env features config t
            ≡ some (
              b,
              if b then t'' else record_result failed_fallback ∷ set_ech_grease_enabled ∷ t'',
            ))
          × (configure_ech_for_quic_session cbs env features config t
              ≡ some (if b then set_ech_grease_enabled ∷ t'' else t''))
    quic-configure_ech config t laws bytes on ne new =
        let (b, t', run) = configure_ech-returns config t laws bytes in
        let (t'', same, session) = quic-configured config t t' b on ne new run in
        (b, t'', run ∙ ap (λ x. some (b, x)) same, session)

-- ===== src/Tls/EchManager/Retry.antt =====
-- ssl_client_socket.cc: what `ECHRetryCallback` answers.
use kiwi_network_patches.Prelude.{
  ◌≡◌, ap, sym, ◌∙◌, Bool, false, not, ◌&&◌, some, List, ◌∷◌, if◌then◌else◌, subst, All, arith,
}
use kiwi_network_patches.Prelude.Bytes.{Bytes, AreBytes, is_empty}
use kiwi_network_patches.Prelude.Drain.{encode_all}
use kiwi_network_patches.Prelude.Tlv.{Tlv, encode_tlv, FitsWire, TlvEnd, decompose_tlvs}
use kiwi_network_patches.Platform.Bytestring.{Cbs, IsCbs}
use kiwi_network_patches.Platform.BoringSsl.{
  keys_new, set_ech_keys, get_ech_retry_configs, record_result, failed_retry, failed_fallback,
  Trace, SslEnv,
}
use kiwi_network_patches.Tls.EchManager.{
  KeysState, EchRetry, retry_abort, retry_retry, retry_with, ech_retry_callback,
}
use kiwi_network_patches.Tls.EchManager.ConfigList.{
  retry_loop, values, adds, any_accepted, foldl-offer_any,
}

-- The trace behind the offers of the callback.
abbrev pub retry_offered : List Tlv → Trace → Trace
retry_offered configs t = adds (values configs) (keys_new ∷ get_ech_retry_configs ∷ t)

-- Whether a key object is to be had, some offer is accepted, and then the keys.
abbrev pub retry_taken : SslEnv → List Tlv → Trace → Bool
retry_taken env configs t =
    env.accepts (get_ech_retry_configs ∷ t) keys_new
    && (any_accepted env (values configs) (keys_new ∷ get_ech_retry_configs ∷ t)
        && env.accepts (retry_offered configs t) set_ech_keys)

-- `ECHRetryCallback` on a config from the server, as a decision over the configs of the list.
unfoldable pub retry_outcome : SslEnv → Bool → List Tlv → Trace → EchRetry × Trace
retry_outcome env empty configs t =
    let t1 = get_ech_retry_configs ∷ t in
    let t2 = retry_offered configs t in
    if empty
    then (retry_abort, record_result failed_fallback ∷ t1)
    else if not (env.accepts t1 keys_new)
    then (retry_abort, keys_new ∷ t1)
    else if not (any_accepted env (values configs) (keys_new ∷ t1))
    then (retry_abort, t2)
    else if not (env.accepts t2 set_ech_keys)
    then (retry_abort, set_ech_keys ∷ t2)
    else (retry_retry, record_result failed_retry ∷ set_ech_keys ∷ t2)

module _ (cbs : Cbs) (laws : IsCbs cbs) (env : SslEnv) where
  pub ech_retry_callback-list :
      (configs : List Tlv) (tail : Bytes) (t : Trace)
      → All FitsWire configs
      → TlvEnd tail
      → env.retry_configs t ≡ some (encode_all encode_tlv configs tail)
      → ech_retry_callback cbs env t
        ≡ some (retry_outcome env (is_empty (encode_all encode_tlv configs tail)) configs t)
  unfolding ech_retry_callback retry_with retry_outcome
  ech_retry_callback-list configs tail t ok end server =
      let start : KeysState = record {
        trace = keys_new ∷ get_ech_retry_configs ∷ t;
        applied = false;
      } in
      rw
        (
          server,
          retry_loop cbs laws env configs tail ok end start,
          foldl-offer_any,
          ech_retry_callback,
        )
        (ground arith)

  -- With a config from the server the callback always returns, and asks for another handshake
  -- exactly if the config is not empty, BoringSSL hands out a key object, accepts one of the
  -- items, whatever their tags, and accepts the keys.
  pub ech_retry_callback-answer :
      (config : Bytes) (t : Trace)
      → AreBytes config
      → env.retry_configs t ≡ some config
      → (configs : List Tlv) × (tail : Bytes) × (config ≡ encode_all encode_tlv configs tail)
        × All FitsWire configs
        × TlvEnd tail
        × (t' : Trace) × (ech_retry_callback cbs env t
            ≡ some (
              if not (is_empty config) && retry_taken env configs t
                  then retry_retry
                  else retry_abort,
              t',
            ))
  unfolding retry_outcome
  ech_retry_callback-answer config t bytes server =
      let (configs, tail, eq, ok, end) = decompose_tlvs config bytes in
      let run = ech_retry_callback-list configs tail t ok end (server ∙ ap some eq) in
      let run' =
        subst (λ c. ech_retry_callback cbs env t ≡ some (retry_outcome env (is_empty c) configs t))
          (sym eq) run in
      (
        configs,
        tail,
        eq,
        ok,
        end,
        (retry_outcome env (is_empty config) configs t).1,
        run' ∙ ground arith,
      )

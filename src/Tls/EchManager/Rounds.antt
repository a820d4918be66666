-- ===== src/Tls/EchManager/Rounds.antt =====
-- ssl_client_socket.cc: handshakes that `ECHRetryCallback` asks for one after the other.
use kiwi_network_patches.Prelude.{ℕ, zero, suc, ◌≡◌, ◌∙◌, true, false, some, List, ◌∷◌, All}
use kiwi_network_patches.Prelude.Bytes.{Bytes}
use kiwi_network_patches.Prelude.Drain.{encode_all}
use kiwi_network_patches.Prelude.Tlv.{Tlv, encode_tlv, FitsWire, TlvEnd}
use kiwi_network_patches.Platform.Bytestring.{Cbs, IsCbs}
use kiwi_network_patches.Platform.BoringSsl.{
  Call, keys_new, keys_add, set_ech_keys, get_ech_retry_configs, Trace, SslEnv,
}
use kiwi_network_patches.Tls.EchManager.{retry_retry, ech_retry_callback}
use kiwi_network_patches.Tls.EchManager.ConfigList.{values, any_accepted}
use kiwi_network_patches.Tls.EchManager.Retry.{
  retry_offered, retry_outcome, ech_retry_callback-list,
}

module _ (cbs : Cbs) (env : SslEnv) where
  -- So many handshakes in a row end with the callback asking for another one.
  pub data Rounds : ℕ → Trace → Type 0 where
    no_round : {t : Trace} → Rounds zero t
    round :
        {n : ℕ} {t t' : Trace}
        → ech_retry_callback cbs env t ≡ some (retry_retry, t')
        → Rounds n t'
        → Rounds (suc n) t

module _ (cbs : Cbs) (laws : IsCbs cbs) (env : SslEnv) (p : Tlv) (configs : List Tlv)
    (tail : Bytes) where
  -- A server that sends a config with one item at least, whenever it is asked, and a BoringSSL that
  -- accepts every call, make the callback ask for any number of handshakes: it counts none.
  pub ech_retry_callback-Rounds :
      (n : ℕ) (t : Trace)
      → All FitsWire (p ∷ configs)
      → TlvEnd tail
      → ((t1 : Trace) → env.retry_configs t1 ≡ some (encode_all encode_tlv (p ∷ configs) tail))
      → ((t1 : Trace) (call : Call) → env.accepts t1 call ≡ true)
      → Rounds cbs env n t
  unfolding retry_outcome
  ech_retry_callback-Rounds zero t ok end sends takes = no_round
  ech_retry_callback-Rounds (suc n) t ok end sends takes =
      let start : Trace = keys_new ∷ get_ech_retry_configs ∷ t in
      let offered : any_accepted env (values (p ∷ configs)) start ≡ true =
        rw (takes start (keys_add p.value)) in
      let t' : Trace = (retry_outcome env false (p ∷ configs) t).1 in
      round {t' = t'}
        (ech_retry_callback-list cbs laws env (p ∷ configs) tail t ok end (sends t)
          ∙ rw (
            takes (get_ech_retry_configs ∷ t) keys_new,
            offered,
            takes (retry_offered (p ∷ configs) t) set_ech_keys,
          ))
        (ech_retry_callback-Rounds n t' ok end sends takes)

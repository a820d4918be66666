-- ===== src/Retry/Cache/Offers.antt =====
-- ech_retry_handler.cc and ssl_client_socket.cc: what `HandleECHRetry` and `ECHRetryCallback` hand
-- to `SSL_ECH_KEYS_add` of one config from the server.
use kiwi_network_patches.Prelude.{
  ℕ, ◌<◌, ◌≤◌, Bool, subst, ◌≡◌, ◌⊎◌, inl, inr, refl, ap, ◌∙◌, not, some, List, [], ◌∷◌, length,
  All, arith, if_keeps, length-append,
}
use kiwi_network_patches.Prelude.Bytes.{Bytes, AreBytes, is_empty}
use kiwi_network_patches.Prelude.Drain.{encode_all}
use kiwi_network_patches.Prelude.Tlv.{Tlv, encode_tlv, decompose_tlvs}
use kiwi_network_patches.Platform.Features.{FeatureList, encrypted_client_hello}
use kiwi_network_patches.Platform.Bytestring.{Cbs, IsCbs}
use kiwi_network_patches.Platform.LruCache.{LruOps}
use kiwi_network_patches.Platform.BoringSsl.{
  Call, keys_new, keys_add, set_ech_keys, get_ech_retry_configs, record_result, failed_retry,
  failed_fallback, record_retry_applied, Trace, SslEnv,
}
use kiwi_network_patches.Retry.Cache.{CacheEntry, NetError, apply_retry_config, handle_ech_retry}
use kiwi_network_patches.Tls.EchManager.{EchRetry, ech_retry_callback}
use kiwi_network_patches.Tls.EchManager.ConfigList.{values, adds, any_accepted}
use kiwi_network_patches.Tls.EchManager.Retry.{
  retry_offered, retry_outcome, ech_retry_callback-list,
}

-- A call that offers this value.
abbrev pub Offers : Bytes → Call → Type 0
Offers v (keys_add x) = x ≡ v
Offers v _ = ⊥

-- The value was offered in a trace.
abbrev pub Offered : Bytes → Trace → Type 0
Offered v [] = ⊥
Offered v (c ∷ t) = Offers v c ⊎ Offered v t

-- What holds of every value that was offered.
abbrev Only : (Bytes → Type 0) → Trace → Type 0
Only P t = (v : Bytes) → Offered v t → P v

module _ (P : Bytes → Type 0) where
  Only-keys_add : (x : Bytes) (t : Trace) → P x → Only P t → Only P (keys_add x ∷ t)
  Only-keys_add x t h only v (inl e) = subst P e h
  Only-keys_add x t h only v (inr o) = only v o

  -- Another call offers nothing.
  Only-other : (c : Call) (t : Trace) → ((v : Bytes) → Offers v c → ⊥) → Only P t → Only P (c ∷ t)
  Only-other c t quiet only v (inl e) = absurd (quiet v e)
  Only-other c t quiet only v (inr o) = only v o

  Only-adds : (vs : List Bytes) (t : Trace) → All P vs → Only P t → Only P (adds vs t)
  Only-adds [] t h only = only
  Only-adds (x ∷ vs) t h only = Only-adds vs (keys_add x ∷ t) h.1 (Only-keys_add x t h.0 only)

  Only-retry_outcome :
      (env : SslEnv) (empty : Bool) (configs : List Tlv) (t : Trace)
      → All P (values configs)
      → Only P t
      → Only P (retry_outcome env empty configs t).1
  unfolding retry_outcome
  Only-retry_outcome env empty configs t h only =
      let t1 = get_ech_retry_configs ∷ t in
      let t2 = retry_offered configs t in
      let asked = Only-other get_ech_retry_configs t (λ v e. e) only in
      let made = Only-other keys_new t1 (λ v e. e) asked in
      let offered = Only-adds (values configs) (keys_new ∷ t1) h made in
      let set = Only-other set_ech_keys t2 (λ v e. e) offered in
      let keeps = λ (r : EchRetry × Trace). Only P r.1 in
      if_keeps keeps empty (Only-other (record_result failed_fallback) t1 (λ v e. e) asked) (
        if_keeps keeps (not (env.accepts t1 keys_new)) made (
          if_keeps keeps (not (any_accepted env (values configs) (keys_new ∷ t1))) offered (
            if_keeps keeps (not (env.accepts t2 set_ech_keys)) set
              (Only-other (record_result failed_retry) (set_ech_keys ∷ t2) (λ v e. e) set))))

  Only-apply_retry_config :
      (env : SslEnv) {C K : Type 0} (ops : LruOps C K CacheEntry) (features : FeatureList)
      (config : Bytes) (t : Trace)
      → P config
      → Only P t
      → Only P (apply_retry_config ops features env config t).1
  unfolding apply_retry_config
  Only-apply_retry_config env ops features config t h only =
      let t1 = keys_new ∷ t in
      let t2 = keys_add config ∷ t1 in
      let t3 = set_ech_keys ∷ t2 in
      let made = Only-other keys_new t (λ v e. e) only in
      let offered = Only-keys_add config t1 h made in
      let set = Only-other set_ech_keys t2 (λ v e. e) offered in
      let keeps = λ (r : NetError × Trace). Only P r.1 in
      if_keeps keeps (not (env.accepts t keys_new)) made (
        if_keeps keeps (not (env.accepts t1 (keys_add config))) offered (
          if_keeps keeps (not (env.accepts t2 set_ech_keys)) set
            (Only-other record_retry_applied t3 (λ v e. e) set)))

-- The contents of an item are shorter than the list.
values-shorter :
    (configs : List Tlv) (tail : Bytes) (n : ℕ)
    → length (encode_all encode_tlv configs tail) ≤ n
    → All (λ v. length v < n) (values configs)
values-shorter [] tail n h = tt
values-shorter (c ∷ configs) tail n h =
    let total = length-append c.value (encode_all encode_tlv configs tail) in
    (omega arith, values-shorter configs tail n (omega arith))

module _ {C K : Type 0} (ops : LruOps C K CacheEntry) (features : FeatureList) (env : SslEnv)
    (config : Bytes) (server : env.retry_configs [] ≡ some config) where
  -- `HandleECHRetry` offers the config as it came.
  handle_ech_retry-offers :
      (now : ℕ) (host : K) (c : C)
      → Only (λ v. v ≡ config) (handle_ech_retry ops features env now host c []).2
  unfolding handle_ech_retry
  handle_ech_retry-offers now host c =
      let same = λ (v : Bytes). v ≡ config in
      let keeps = λ (r : NetError × C × Trace). Only same r.2 in
      let asked = Only-other same get_ech_retry_configs [] (λ v e. e) (λ v o. absurd o) in
      rw server (
        if_keeps keeps (not (features encrypted_client_hello)) (λ v o. absurd o)
          (if_keeps keeps (is_empty config) asked (
            Only-apply_retry_config same env ops features config (get_ech_retry_configs ∷ []) refl
              asked)))

  -- `ECHRetryCallback` offers what stands in the items of the config, which is shorter.
  ech_retry_callback-offers :
      (cbs : Cbs) (laws : IsCbs cbs)
      → AreBytes config
      → (answer : EchRetry) × (t : Trace) × (ech_retry_callback cbs env [] ≡ some (answer, t))
        × Only (λ v. length v < length config) t
  ech_retry_callback-offers cbs laws bytes =
      let (configs, tail, eq, ok, end) = decompose_tlvs config bytes in
      let r = retry_outcome env (is_empty (encode_all encode_tlv configs tail)) configs [] in
      (
        r.0,
        r.1,
        ech_retry_callback-list cbs laws env configs tail [] ok end (server ∙ ap some eq),
        Only-retry_outcome (λ v. length v < length config) env _ configs []
            (values-shorter configs tail (length config) (omega (arith, ap length eq)))
            (λ v o. absurd o),
      )

  -- On one config from the server, `ECHRetryCallback` returns, and offers nothing to BoringSSL that
  -- `HandleECHRetry` offers: the one takes the config apart, the other hands it over as it came.
  pub ech_retry_callback-handle_ech_retry :
      (cbs : Cbs) (laws : IsCbs cbs) (now : ℕ) (host : K) (c : C)
      → AreBytes config
      → (answer : EchRetry) × (t : Trace) × (ech_retry_callback cbs env [] ≡ some (answer, t))
        × ((v : Bytes)
            → Offered v t
            → Offered v (handle_ech_retry ops features env now host c []).2
            → ⊥)
  ech_retry_callback-handle_ech_retry cbs laws now host c bytes =
      let (answer, t, run, shorter) = ech_retry_callback-offers cbs laws bytes in
      (
        answer,
        t,
        run,
        λ v o o'.
            let less = shorter v o in
            let same = ap length (handle_ech_retry-offers now host c v o') in absurd (omega arith),
      )

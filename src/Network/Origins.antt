-- ===== src/Network/Origins.antt =====
-- Where the ECH configurations of the resolve context and of the cache come from: what one call
-- may bring in.
use kiwi_network_patches.Prelude.{
  ℕ, ◌≡◌, ◌⊎◌, inl, inr, refl, sym, ap, ◌∙◌, Option, none, some, some-injective, List, All,
  Bool-cases, Option-cases, arith, ◌==◌,
}
use kiwi_network_patches.Prelude.Bytes.{Bytes, AreBytes, is_empty}
use kiwi_network_patches.Platform.Features.{FeatureList, use_dns_https_svcb, encrypted_client_hello}
use kiwi_network_patches.Platform.Bytestring.{Cbs, IsCbs}
use kiwi_network_patches.Platform.DnsProtocol.{DnsProtocol}
use kiwi_network_patches.Platform.ResolveContext.{ContextOps, IsContext}
use kiwi_network_patches.Platform.LruCache.{LruOps}
use kiwi_network_patches.Platform.BoringSsl.{Trace, SslEnv}
use kiwi_network_patches.Dns.Record.{HttpsRecordResult}
use kiwi_network_patches.Dns.Process.{process_https_record}
use kiwi_network_patches.Dns.Process.FirstValid.{
  FirstValid, FirstValid-total, stored, process_records-FirstValid,
}
use kiwi_network_patches.Request.Pipeline.{ech-store_result}
use kiwi_network_patches.Retry.Cache
use kiwi_network_patches.Retry.Cache.{CacheEntry, max_entries, handle_ech_retry, store}
use kiwi_network_patches.Retry.Monitor.{clear_all}
use kiwi_network_patches.Android.{
  ConnectionType, is_tracked, type_code, Device, enter_network, on_active_network_changed,
  on_network_changed,
}
use kiwi_network_patches.Quic.{can_use_0rtt_with_ech}

module _ {X N : Type 0} (d : DnsProtocol) (contexts : ContextOps X N) (laws : IsContext contexts)
    (dec : Discrete N) where
  -- What a request at a key gets behind a record: what it got before, or what the record says.
  ech-stored :
      (nik j : N) (c : X) (records : List Bytes) (o : Option HttpsRecordResult)
      → FirstValid d records o
      → (contexts.get_ech_config j (stored contexts nik c o) ≡ contexts.get_ech_config j c)
        ⊎ ((j ≡ nik)
            × (r : HttpsRecordResult) × FirstValid d records (some r)
            × (contexts.get_ech_config j (stored contexts nik c o) ≡ r.ech_config))
  ech-stored nik j c records none first = inl refl
  ech-stored nik j c records (some r) first = elim (Bool-cases (is_empty r.ech_config)) [
    | inl e ↦ inl (ech-store_result contexts laws nik r j c ∙ rw e)
    | inr e ↦ elim (dec j nik) [
      | no other ↦ inl (
          ech-store_result contexts laws nik r j c
          ∙ rw e (laws.ech_set_ne nik j r.ech_config c other))
      | yes same ↦ inr (
        same,
        r,
        first,
        ech-store_result contexts laws nik r j c ∙ rw (e, same) (laws.ech_set nik r.ech_config c),
      )
    ]
  ]

  module _ (features : FeatureList) (cbs : Cbs) (cbs_laws : IsCbs cbs) where
    pub process-origin :
        (nik j : N) (c c' : X) (records : List Bytes)
        → All AreBytes records
        → process_https_record features cbs d contexts nik (some records) c ≡ some c'
        → (contexts.get_ech_config j c' ≡ contexts.get_ech_config j c)
          ⊎ ((j ≡ nik)
              × (r : HttpsRecordResult) × FirstValid d records (some r)
              × (contexts.get_ech_config j c' ≡ r.ech_config))
    unfolding process_https_record
    process-origin nik j c c' records bytes h = elim (Bool-cases (features use_dns_https_svcb)) [
      | inr off ↦
          let same : c ≡ c' = some-injective _ _ (rw (off, process_https_record) at h) in
          inl (ap (contexts.get_ech_config j) (sym same))
      | inl on ↦
          let (o, first) = FirstValid-total d records bytes in
          let run = process_records-FirstValid features cbs cbs_laws d contexts nik c first in
          let same : stored contexts nik c o ≡ c' =
            some-injective _ _ (sym run ∙ (rw (on, process_https_record) at h)) in
          rw (← same) (ech-stored nik j c records o first)
    ]

module _ {C K : Type 0} (caches : LruOps C K CacheEntry) (features : FeatureList) where
  pub handle_ech_retry-origin :
      (env : SslEnv) (now : ℕ) (host : K) (c : C) (t : Trace)
      → ((handle_ech_retry caches features env now host c t).1 ≡ c)
        ⊎ ((config : Bytes) × (env.retry_configs t ≡ some config)
            × ((handle_ech_retry caches features env now host c t).1
                ≡ store caches now host config c))
  unfolding handle_ech_retry
  handle_ech_retry-origin env now host c t = elim (Bool-cases (features encrypted_client_hello)) [
    | inr off ↦ inl (rw (off, handle_ech_retry))
    | inl on ↦ elim (Option-cases (env.retry_configs t)) [
      | inl e ↦ inl (rw (on, e, handle_ech_retry))
      | inr (config, e) ↦ elim (Bool-cases (is_empty config)) [
        | inl none_given ↦ inl (rw (on, e, none_given, handle_ech_retry))
        | inr given ↦ inr (config, e, rw (on, e, given, handle_ech_retry))
      ]
    ]
  ]

module _ {C K : Type 0} (caches : LruOps C K CacheEntry) where
  pub can_use_0rtt-origin :
      (now : ℕ) (host : K) (config : Bytes) (c : C)
      → ((can_use_0rtt_with_ech caches now host config c).1 ≡ c)
        ⊎ ((can_use_0rtt_with_ech caches now host config c).1 ≡ (Cache.get caches now host c).1)
  unfolding can_use_0rtt_with_ech
  can_use_0rtt-origin now host config c = elim (Bool-cases (is_empty config)) [
    | inl e ↦ inl (rw (e, can_use_0rtt_with_ech))
    | inr e ↦ inr (ground arith)
  ]

-- The new type alone leaves the monitor and the cache as they are.
pub cache-enter_network :
    {C K : Type 0} (type : ConnectionType) (s : Device C K) → (enter_network type s).cache ≡ s.cache
unfolding enter_network
cache-enter_network type s = ground arith

pub monitor-enter_network :
    {C K : Type 0} (type : ConnectionType) (s : Device C K)
    → (enter_network type s).monitor ≡ s.monitor
unfolding enter_network
monitor-enter_network type s = ground arith

module _ {C K : Type 0} (caches : LruOps C K CacheEntry) (dec : Discrete K) where
  -- The observer with everything cleared.
  abbrev pub cleared : ConnectionType → Device C K → Device C K
  cleared type s = record {
    current_connection = type;
    monitor = clear_all dec s.monitor;
    cache = Cache.clear caches s.cache;
  }

  pub on_network_changed-origin :
      (type : ConnectionType) (s : Device C K)
      → (on_network_changed caches dec type s ≡ s)
        ⊎ (on_network_changed caches dec type s ≡ cleared type s)
  unfolding on_network_changed on_active_network_changed
  on_network_changed-origin type s = elim (Bool-cases (is_tracked type)) [
    | inr e ↦ inl (rw e)
    | inl e ↦ elim (Bool-cases (type_code type == type_code s.current_connection)) [
      | inl same ↦ inl (rw (e, same))
      | inr other ↦ inr (rw (e, other))
    ]
  ]

-- ===== src/Network/Steps.antt =====
-- What each call keeps of the invariant, one part of it at a time.
use kiwi_network_patches.Prelude.{
  ℕ, suc, ◌≤◌, ◌≡◌, inl, inr, sym, ap, ◌∙◌, false, some, some-injective, List, ◌∷◌, arith,
}
use mathlib.Core.Option.{some-ne-none}
use kiwi_network_patches.Prelude.Bytes.{is_empty}
use kiwi_network_patches.Platform.Features.{FeatureList}
use kiwi_network_patches.Platform.Bytestring.{Cbs, IsCbs}
use kiwi_network_patches.Platform.DnsProtocol.{DnsProtocol}
use kiwi_network_patches.Platform.ResolveContext.{ContextOps, IsContext}
use kiwi_network_patches.Platform.Float.{FloatOps}
use kiwi_network_patches.Platform.LruCache.{LruOps, IsLru}
use kiwi_network_patches.Retry.Cache.{CacheEntry, max_entries, store, clear, invalidate}
use kiwi_network_patches.Retry.Cache.Entries.{size-get-le}
use kiwi_network_patches.Retry.Cache.Peeks.{get-keeps}
use kiwi_network_patches.Retry.Monitor.{HostStats, clear_all}
use kiwi_network_patches.Quic.{on_quic_connection_migration_with_ech}
use kiwi_network_patches.Network.{
  Network, Label, Step, resolve, retry, report, look_up, drop_config, migrate, clear_monitor,
  clear_cache, move, switch, observe, adjust, check_script, report_vpn,
}
use kiwi_network_patches.Network.Origins.{
  process-origin, handle_ech_retry-origin, can_use_0rtt-origin, cache-enter_network,
  monitor-enter_network, on_network_changed-origin,
}
use kiwi_network_patches.Network.Invariant.{
  FromDns, answered, before, FromServer, sent, sent_before, IsCounted, record_result-IsCounted,
  reset-IsCounted, weaker-IsCounted,
}

module _ {X C N K W : Type 0} (features : FeatureList) (cbs : Cbs) (cbs_laws : IsCbs cbs)
    (d : DnsProtocol) (contexts : ContextOps X N) (laws : IsContext contexts)
    (caches : LruOps C K CacheEntry) (floats : FloatOps W) (lru : IsLru caches max_entries)
    (dec : Discrete K) (dec_nik : Discrete N) where
  pub Step-size :
      {s u : Network X C K W} {l : Label N K}
      → Step features cbs d contexts caches floats dec s l u
      → caches.size s.device.cache ≤ max_entries
      → caches.size u.device.cache ≤ max_entries
  unfolding store clear invalidate
  Step-size {s} (resolve nik records bytes run) h = h
  Step-size {s} (retry now host config env t server) h =
      elim (handle_ech_retry-origin caches features env now host s.device.cache t) [
        | inl same ↦ rw same h
        | inr (config', given, same) ↦ rw same (lru.size-put host _ s.device.cache h)
      ]
  Step-size {s} (report host success) h = h
  Step-size {s} (look_up now host config) h =
      elim (can_use_0rtt-origin caches now host config s.device.cache) [
        | inl same ↦ rw same h
        | inr same ↦ rw same (omega (arith, size-get-le caches lru now host s.device.cache))
      ]
  Step-size {s} (drop_config host) h = omega (arith, lru.size-erase host s.device.cache)
  Step-size {s} (migrate host) h = h
  Step-size {s} clear_monitor h = h
  Step-size {s} clear_cache h = omega (arith, lru.size-clear s.device.cache)
  Step-size {s} (move type) h = rw (cache-enter_network type s.device) h
  Step-size {s} (switch type) h = elim (on_network_changed-origin caches dec type s.device) [
    | inl same ↦ rw same h
    | inr same ↦ rw same (omega (arith, lru.size-clear s.device.cache))
  ]
  Step-size {s} (observe e) h = h
  Step-size {s} (adjust proxy_info config) h = h
  Step-size {s} (check_script pac_script) h = h
  Step-size {s} (report_vpn success) h = h

  -- The ECH configuration of a key has the origin that it had, or comes from this step.
  pub Step-ech :
      {s u : Network X C K W} {l : Label N K} (labels : List (Label N K)) (j : N)
      → Step features cbs d contexts caches floats dec s l u
      → (is_empty (contexts.get_ech_config j s.context) ≡ false
          → FromDns d labels j (contexts.get_ech_config j s.context))
      → is_empty (contexts.get_ech_config j u.context) ≡ false
      → FromDns d (l ∷ labels) j (contexts.get_ech_config j u.context)
  Step-ech {s} labels j (resolve nik records {c} bytes run) h ne =
      elim (process-origin d contexts laws dec_nik features cbs cbs_laws nik j s.context c records
        bytes run) [
          | inl same ↦ rw same (before (h (rw same at ne)))
          | inr (at_key, r, first, same) ↦ answered r at_key first same
        ]
  Step-ech {s} labels j (retry now host config env t server) h ne = before (h ne)
  Step-ech {s} labels j (report host success) h ne = before (h ne)
  Step-ech {s} labels j (look_up now host config) h ne = before (h ne)
  Step-ech {s} labels j (drop_config host) h ne = before (h ne)
  Step-ech {s} labels j (migrate host) h ne = before (h ne)
  Step-ech {s} labels j clear_monitor h ne = before (h ne)
  Step-ech {s} labels j clear_cache h ne = before (h ne)
  Step-ech {s} labels j (move type) h ne = before (h ne)
  Step-ech {s} labels j (switch type) h ne = before (h ne)
  Step-ech {s} labels j (observe e) h ne = before (h ne)
  Step-ech {s} labels j (adjust proxy_info config) h ne = before (h ne)
  Step-ech {s} labels j (check_script pac_script) h ne = before (h ne)
  Step-ech {s} labels j (report_vpn success) h ne = before (h ne)

  pub Step-retry :
      {s u : Network X C K W} {l : Label N K} (labels : List (Label N K)) (k : K) (e : CacheEntry)
      → Step features cbs d contexts caches floats dec s l u
      → ((f : CacheEntry) → caches.peek k s.device.cache ≡ some f → FromServer labels k f.config)
      → caches.peek k u.device.cache ≡ some e
      → FromServer (l ∷ labels) k e.config
  unfolding store clear invalidate
  Step-retry labels k e (resolve nik records bytes run) h there = sent_before (h e there)
  Step-retry {s} labels k e (retry now host config env t server) h there =
      elim (handle_ech_retry-origin caches features env now host s.device.cache t) [
        | inl same ↦ sent_before (h e (rw same at there))
        | inr (given, from, same) ↦
            let new : CacheEntry = record { config = given; stored_at = now } in
            let there' : caches.peek k (caches.put host new s.device.cache) ≡ some e =
              rw same at there in
            elim (dec k host) [
              | yes at_host ↦
                  let entry : new ≡ e =
                    some-injective _ _
                      (sym (lru.peek-put host new s.device.cache) ∙ (rw at_host at there')) in
                  sent at_host (sym server ∙ from ∙ ap (λ (x : CacheEntry). some x.config) entry)
              | no other ↦ elim (lru.peek-put_ne host k new s.device.cache other) [
                | inl kept ↦ sent_before (h e (sym kept ∙ there'))
                | inr gone ↦ absurd (some-ne-none e (sym there' ∙ gone))
              ]
            ]
      ]
  Step-retry labels k e (report host success) h there = sent_before (h e there)
  Step-retry {s} labels k e (look_up now host config) h there =
      elim (can_use_0rtt-origin caches now host config s.device.cache) [
        | inl same ↦ sent_before (h e (rw same at there))
        | inr same ↦ elim (get-keeps caches lru dec now host k s.device.cache) [
          | inl gone ↦ absurd (some-ne-none e (sym (rw same at there) ∙ gone))
          | inr kept ↦ sent_before (h e (sym kept ∙ (rw same at there)))
        ]
      ]
  Step-retry {s} labels k e (drop_config host) h there = elim (dec k host) [
    | no other ↦ sent_before (h e (sym (lru.peek-erase_ne host k s.device.cache other) ∙ there))
    | yes same ↦
        absurd (some-ne-none e (sym (rw same at there) ∙ lru.peek-erase host s.device.cache))
  ]
  Step-retry labels k e (migrate host) h there = sent_before (h e there)
  Step-retry labels k e clear_monitor h there = sent_before (h e there)
  Step-retry {s} labels k e clear_cache h there =
      absurd (some-ne-none e (sym there ∙ lru.peek-clear k s.device.cache))
  Step-retry {s} labels k e (move type) h there =
      sent_before (h e (rw (cache-enter_network type s.device) at there))
  Step-retry {s} labels k e (switch type) h there =
      elim (on_network_changed-origin caches dec type s.device) [
        | inl same ↦ sent_before (h e (rw same at there))
        | inr same ↦
            absurd (some-ne-none e (sym (rw same at there) ∙ lru.peek-clear k s.device.cache))
      ]
  Step-retry labels k e (observe x) h there = sent_before (h e there)
  Step-retry labels k e (adjust proxy_info config) h there = sent_before (h e there)
  Step-retry labels k e (check_script pac_script) h there = sent_before (h e there)
  Step-retry labels k e (report_vpn success) h there = sent_before (h e there)

  pub Step-counted :
      {s u : Network X C K W} {l : Label N K} (n : ℕ) (k : K) (st : HostStats)
      → Step features cbs d contexts caches floats dec s l u
      → ((j : K) (t : HostStats) → s.device.monitor j ≡ some t → IsCounted n t)
      → u.device.monitor k ≡ some st
      → IsCounted (suc n) st
  unfolding on_quic_connection_migration_with_ech clear_all
  Step-counted {s} n k st (resolve nik records bytes run) h there =
      weaker-IsCounted dec n s.device.monitor h k st there
  Step-counted {s} n k st (retry now host config env t server) h there =
      weaker-IsCounted dec n s.device.monitor h k st there
  Step-counted {s} n k st (report host success) h there =
      record_result-IsCounted dec n s.device.monitor h host k success st there
  Step-counted {s} n k st (look_up now host config) h there =
      weaker-IsCounted dec n s.device.monitor h k st there
  Step-counted {s} n k st (drop_config host) h there =
      weaker-IsCounted dec n s.device.monitor h k st there
  Step-counted {s} n k st (migrate host) h there =
      reset-IsCounted dec n s.device.monitor h host k st there
  Step-counted n k st clear_monitor h there = absurd (some-ne-none st (sym there))
  Step-counted {s} n k st clear_cache h there = weaker-IsCounted dec n s.device.monitor h k st there
  Step-counted {s} n k st (move type) h there =
      weaker-IsCounted dec n s.device.monitor h k st
        (rw (monitor-enter_network type s.device) at there)
  Step-counted {s} n k st (switch type) h there =
      elim (on_network_changed-origin caches dec type s.device) [
        | inl same ↦ weaker-IsCounted dec n s.device.monitor h k st (rw same at there)
        | inr same ↦ absurd (some-ne-none st (sym (rw same at there)))
      ]
  Step-counted {s} n k st (observe e) h there = weaker-IsCounted dec n s.device.monitor h k st there
  Step-counted {s} n k st (adjust proxy_info config) h there =
      weaker-IsCounted dec n s.device.monitor h k st there
  Step-counted {s} n k st (check_script pac_script) h there =
      weaker-IsCounted dec n s.device.monitor h k st there
  Step-counted {s} n k st (report_vpn success) h there =
      weaker-IsCounted dec n s.device.monitor h k st there

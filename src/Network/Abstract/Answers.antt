-- ===== src/Network/Abstract/Answers.antt =====
-- What the shared cache of retry configs answers in the states that the calls lead to: to `Get`, and
-- to `CanUse0RttWithECH`.
use kiwi_network_patches.Prelude.{
  ℕ, ◌≤◌, ◌-◌, ◌≡◌, Bool, none, sym, ap, ◌∙◌, inl, inr, true, false, ◌||◌, some, List, arith,
  Option-cases, dec_le,
}
use mathlib.Core.Bool.{true≢false}
use kiwi_network_patches.Prelude.Bytes.{Bytes, eqs, is_empty}
use kiwi_network_patches.Platform.Features.{FeatureList, use_dns_https_svcb, encrypted_client_hello}
use kiwi_network_patches.Platform.Bytestring.{Cbs, IsCbs}
use kiwi_network_patches.Platform.DnsProtocol.{DnsProtocol}
use kiwi_network_patches.Platform.ResolveContext.{ContextOps, IsContext}
use kiwi_network_patches.Platform.Float.{FloatOps}
use kiwi_network_patches.Platform.LruCache.{LruOps, IsLru}
use kiwi_network_patches.Retry.Cache.{CacheEntry, hours_24, max_entries, get}
use kiwi_network_patches.Retry.Cache.Entries.{get-fresh, get-expired, get-missing}
use kiwi_network_patches.Retry.Cache.Peeks.{fresh_only}
use kiwi_network_patches.Retry.Cache.Exact.{config_of, count_stores, timed_run, get-timed_run}
use kiwi_network_patches.Quic.{can_use_0rtt_with_ech}
use kiwi_network_patches.Android.{ConnectionType}
use kiwi_network_patches.Network.{Network, Label, start, Reach}
use kiwi_network_patches.Network.Abstract.{sent_config, cache_calls}
use kiwi_network_patches.Network.Abstract.Refinement.{Reach-Tracks, Reach-Refines}

or3-false : (a b c : Bool) → (a || (b || c)) ≡ false → (a ≡ false) × (b ≡ false) × (c ≡ false)
or3-false a b c h = ground arith

module _ {C K : Type 0} (ops : LruOps C K CacheEntry) where
  can_use_0rtt-get :
      (now : ℕ) (server : K) (current : Bytes) (c : C)
      → (can_use_0rtt_with_ech ops now server current c).0 ≡ (
          is_empty current
          || (is_empty (get ops now server c).0 || eqs (get ops now server c).0 current))
  unfolding can_use_0rtt_with_ech
  can_use_0rtt-get now server current c = ground arith

  -- A config that `Get` returns is that of the entry.
  get-entry :
      (lru : IsLru ops max_entries) (now : ℕ) (k : K) (c : C)
      → is_empty (get ops now k c).0 ≡ false
      → (e : CacheEntry) × (ops.peek k c ≡ some e) × ((get ops now k c).0 ≡ e.config)
  get-entry lru now k c given = elim (Option-cases (ops.peek k c)) [
    | inl e ↦
        absurd (true≢false (sym (ap (λ r. is_empty r.0) (get-missing ops lru now k c e)) ∙ given))
    | inr (x, there) ↦ elim (dec_le (now - x.stored_at) hours_24) [
      | yes young ↦ (x, there, ap (λ r. r.0) (get-fresh ops lru now k c x there young))
      | no old ↦ absurd (
          true≢false (
            sym (ap (λ r. is_empty r.0) (get-expired ops lru now k c x there (omega arith)))
            ∙ given))
    ]
  ]

-- The config that the calls leave for a host: the one it was last sent, if that was neither dropped
-- nor found to be too old since, nor followed by a switch, and is not too old now.
abbrev pub held_config :
    {N K : Type 0} → Discrete K → ConnectionType → List (Label N K) → ℕ → K → Bytes
held_config dec at_first labels now k =
    config_of (fresh_only now (timed_run dec (cache_calls at_first labels) (λ j. none) k))

module _ {X C N K W : Type 0} (features : FeatureList) (cbs : Cbs) (cbs_laws : IsCbs cbs)
    (d : DnsProtocol) (contexts : ContextOps X N) (laws : IsContext contexts)
    (caches : LruOps C K CacheEntry) (floats : FloatOps W) (lru : IsLru caches max_entries)
    (dec : Discrete K) (dec_nik : Discrete N) (svcb : features use_dns_https_svcb ≡ true)
    (on : features encrypted_client_hello ≡ true) (at_first : ConnectionType) (context : X)
    (empty : (j : N) → is_empty (contexts.get_ech_config j context) ≡ true) where
  get-Reach :
      {u : Network X C K W} {labels : List (Label N K)}
      → Reach features cbs d contexts caches floats dec
          (start features cbs d contexts caches floats dec context at_first)
          labels
          u
      → (now : ℕ) (k : K) → count_stores 0 (cache_calls at_first labels) ≤ max_entries
      → (get caches now k u.device.cache).0 ≡ held_config dec at_first labels now k
  get-Reach {u} {labels} reached now k room =
      let refined =
        Reach-Tracks features cbs cbs_laws d contexts laws caches floats lru dec dec_nik svcb on
          at_first context empty reached in
      ap (λ c. (get caches now k c).0) refined.same_cache
      ∙ get-timed_run caches lru dec (cache_calls at_first labels) now k room

  -- With both features on, in every state that the calls of the sources lead to, in any order and at
  -- any times, from a start without ECH configurations, as long as at most 1000 retry configs were
  -- stored since the cache was last cleared, 0-RTT to a server with a configuration is allowed exactly
  -- if the configuration is empty, or the server has no retry config by the calls, or one that is the
  -- same: the last one it was sent, if that was neither dropped nor found to be more than 24 hours old
  -- since, nor followed by a clearing or a switch of the network, and is no older than 24 hours.
  pub can_use_0rtt_with_ech-Reach :
      {u : Network X C K W} {labels : List (Label N K)}
      → Reach features cbs d contexts caches floats dec
          (start features cbs d contexts caches floats dec context at_first)
          labels
          u
      → (now : ℕ) (server : K) (current : Bytes)
      → count_stores 0 (cache_calls at_first labels) ≤ max_entries
      → let held = held_config dec at_first labels now server in
        (can_use_0rtt_with_ech caches now server current u.device.cache).0
        ≡ (is_empty current || (is_empty held || eqs held current))
  can_use_0rtt_with_ech-Reach {u} reached now server current room =
      can_use_0rtt-get caches now server current u.device.cache
      ∙ ap (λ held. is_empty current || (is_empty held || eqs held current))
          (get-Reach reached now server room)

  -- With both features on, in every state that the calls of the sources lead to, in any order and at
  -- any times, from a start without ECH configurations, 0-RTT is refused only to a server whose last
  -- retry config, not dropped nor followed by a switch since, is given and differs from the
  -- configuration, which is given too.
  pub can_use_0rtt_with_ech-sent :
      {u : Network X C K W} {labels : List (Label N K)}
      → Reach features cbs d contexts caches floats dec
          (start features cbs d contexts caches floats dec context at_first)
          labels
          u
      → (now : ℕ) (server : K) (current : Bytes)
      → (can_use_0rtt_with_ech caches now server current u.device.cache).0 ≡ false
      → (sent : Bytes) × (sent_config dec at_first server labels ≡ some sent)
        × (is_empty current ≡ false)
        × (is_empty sent ≡ false)
        × (eqs sent current ≡ false)
  can_use_0rtt_with_ech-sent {u} reached now server current refused =
      let refined =
        Reach-Refines features cbs cbs_laws d contexts laws caches floats lru dec dec_nik svcb on
          at_first context empty reached in
      let answer = sym (can_use_0rtt-get caches now server current u.device.cache) ∙ refused in
      let (given, other, same) = or3-false _ _ _ answer in
      let (x, there, config) = get-entry caches lru now server u.device.cache other in
      (
        x.config,
        refined.latest_sent server x there,
        given,
        ap is_empty (sym config) ∙ other,
        ap (λ s. eqs s current) (sym config) ∙ same,
      )

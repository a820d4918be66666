-- ===== src/Network/Abstract.antt =====
-- What the calls that were made say of the shared state, without the state: the abstract view that
-- the network stack has of its network, its hosts and its names.
pub mod Steps
pub mod Surroundings
pub mod Sent
pub mod Calls
pub mod Unique
pub mod Refinement
pub mod Connection
pub mod Answers
pub mod Split
pub mod Threads
pub mod Total
use kiwi_network_patches.Prelude.{
  ◌≤◌, ◌≡◌, ◌≢◌, ◌↔◌, Bool, true, false, not, ◌&&◌, Option, none, some, List, [], ◌∷◌, ◌++◌, ◌==◌,
  if◌then◌else◌,
}
use mathlib.Core.Logic.{ite}
use kiwi_network_patches.Prelude.Bytes.{Bytes, is_empty}
use kiwi_network_patches.Platform.DnsProtocol.{DnsProtocol}
use kiwi_network_patches.Platform.ResolveContext.{ContextOps}
use kiwi_network_patches.Platform.Float.{FloatOps}
use kiwi_network_patches.Platform.LruCache.{LruOps}
use kiwi_network_patches.Dns.Record.{HttpsRecordResult}
use kiwi_network_patches.Dns.Process.FirstValid.{FirstValid}
use kiwi_network_patches.Retry.Cache.{CacheEntry, max_entries}
use kiwi_network_patches.Retry.Cache.Exact.{count_stores, timed_run}
use kiwi_network_patches.Retry.Cache.Entries
use kiwi_network_patches.Retry.Cache.Entries.{Op, op_store, op_get, op_invalidate, op_clear}
use kiwi_network_patches.Retry.Monitor.History
use kiwi_network_patches.Retry.Monitor.History.{
  Event, handshake, resets, clears, entry_of, results_of,
}
use kiwi_network_patches.Android.{ConnectionType, connection_wifi, connection_4g, connection_5g}
use kiwi_network_patches.Android.Vpn.{quic_success_rate_over_vpn}
use kiwi_network_patches.Android.Vpn.Rate
use kiwi_network_patches.Proxy.{Evidence}
use kiwi_network_patches.Proxy.Interception.{Resolves}
use kiwi_network_patches.Proxy.Score.{points}
use kiwi_network_patches.Network.{
  Network, Label, resolved, retried, reported, looked_up, dropped, migrated, all_reset, all_dropped,
  moved, switched, observed, adjusted, scripted, vpn_reported,
}

-- Whether a notification is one of a network of WIFI, 4G or 5G that is not the current one; others are
-- not heeded.
abbrev pub changes : ConnectionType → ConnectionType → Bool
changes connection_wifi connection_wifi = false
changes connection_wifi _ = true
changes connection_4g connection_4g = false
changes connection_4g _ = true
changes connection_5g connection_5g = false
changes connection_5g _ = true
changes _ _ = false

module _ {N K : Type 0} where
  -- The network, after the calls, newest first.
  abbrev pub connection : ConnectionType → List (Label N K) → ConnectionType
  connection at_first [] = at_first
  connection at_first (moved type ∷ older) =
      let before = connection at_first older in if changes type before then type else before
  connection at_first (switched type ∷ older) =
      let before = connection at_first older in if changes type before then type else before
  connection at_first (_ ∷ older) = connection at_first older

  -- What the calls mean for the statistics of the hosts.
  abbrev pub events : ConnectionType → List (Label N K) → List (Event K)
  events at_first [] = []
  events at_first (reported host success ∷ older) = handshake host success ∷ events at_first older
  events at_first (migrated host ∷ older) = resets host ∷ events at_first older
  events at_first (all_reset ∷ older) = clears ∷ events at_first older
  events at_first (switched type ∷ older) =
      let before = events at_first older in
      if changes type (connection at_first older) then clears ∷ before else before
  events at_first (_ ∷ older) = events at_first older

  -- The connections since the last new environment.
  abbrev pub evidence : List (Label N K) → List Evidence
  evidence [] = []
  evidence (observed e ∷ older) = e ∷ evidence older
  evidence (adjusted proxy_info ∷ older) = []
  evidence (_ ∷ older) = evidence older

  -- The PAC scripts that were checked, newest first.
  abbrev pub pac_scripts : List (Label N K) → List Bytes
  pac_scripts [] = []
  pac_scripts (scripted pac_script ∷ older) = pac_script ∷ pac_scripts older
  pac_scripts (_ ∷ older) = pac_scripts older

  -- The results of QUIC over VPNs, oldest first.
  abbrev pub vpn_results : List (Label N K) → List Bool
  vpn_results [] = []
  vpn_results (vpn_reported success ∷ older) = vpn_results older ++ (success ∷ [])
  vpn_results (_ ∷ older) = vpn_results older

  -- The config that a host was last sent, if it was not dropped since then.
  abbrev pub sent_config : Discrete K → ConnectionType → K → List (Label N K) → Option Bytes
  sent_config dec at_first k [] = none
  sent_config dec at_first k (retried now host none ∷ older) = sent_config dec at_first k older
  sent_config dec at_first k (retried now host (some config) ∷ older) =
      let before = sent_config dec at_first k older in
      if is_empty config then before else ite (dec k host) (some config) before
  sent_config dec at_first k (dropped host ∷ older) =
      ite (dec k host) none (sent_config dec at_first k older)
  sent_config dec at_first k (all_dropped ∷ older) = none
  sent_config dec at_first k (switched type ∷ older) =
      let before = sent_config dec at_first k older in
      if changes type (connection at_first older) then none else before
  sent_config dec at_first k (_ ∷ older) = sent_config dec at_first k older

  -- What the calls mean for the cache, oldest first.
  abbrev pub cache_calls : ConnectionType → List (Label N K) → List (Op K)
  cache_calls at_first [] = []
  cache_calls at_first (retried now host none ∷ older) = cache_calls at_first older
  cache_calls at_first (retried now host (some config) ∷ older) =
      let before = cache_calls at_first older in
      if is_empty config then before else before ++ (op_store now host config ∷ [])
  cache_calls at_first (looked_up now host current ∷ older) =
      let before = cache_calls at_first older in
      if is_empty current then before else before ++ (op_get now host ∷ [])
  cache_calls at_first (dropped host ∷ older) =
      cache_calls at_first older ++ (op_invalidate host ∷ [])
  cache_calls at_first (all_dropped ∷ older) = cache_calls at_first older ++ (op_clear ∷ [])
  cache_calls at_first (switched type ∷ older) =
      let before = cache_calls at_first older in
      if changes type (connection at_first older) then before ++ (op_clear ∷ []) else before
  cache_calls at_first (_ ∷ older) = cache_calls at_first older

  -- A call that is no answer of the resolver.
  abbrev pub NoAnswer : Label N K → Type 0
  NoAnswer (resolved nik records) = ⊥
  NoAnswer _ = Unit

  -- The configuration of the latest answer for a key whose first valid record has one.
  pub data Latest (d : DnsProtocol) (j : N) : List (Label N K) → Bytes → Type 0 where
    never : Latest d j [] []
    answered :
        {labels : List (Label N K)} {nik : N} {records : List Bytes} (r : HttpsRecordResult)
        → j ≡ nik
        → FirstValid d records (some r)
        → is_empty r.ech_config ≡ false
        → Latest d j (resolved nik records ∷ labels) r.ech_config
    other_key :
        {labels : List (Label N K)} {nik : N} {records : List Bytes} {config : Bytes}
        → j ≢ nik
        → Latest d j labels config
        → Latest d j (resolved nik records ∷ labels) config
    no_record :
        {labels : List (Label N K)} {nik : N} {records : List Bytes} {config : Bytes}
        → FirstValid d records none
        → Latest d j labels config
        → Latest d j (resolved nik records ∷ labels) config
    no_config :
        {labels : List (Label N K)} {nik : N} {records : List Bytes} {config : Bytes}
        (r : HttpsRecordResult)
        → FirstValid d records (some r)
        → is_empty r.ech_config ≡ true
        → Latest d j labels config
        → Latest d j (resolved nik records ∷ labels) config
    no_answer :
        {labels : List (Label N K)} {l : Label N K} {config : Bytes}
        → NoAnswer l
        → Latest d j labels config
        → Latest d j (l ∷ labels) config

-- An average that each result moves by a tenth: towards 1 for a success, towards 0 for a failure.
module _ {W : Type 0} (floats : FloatOps W) where
  abbrev pub average : W → List Bool → W
  average rate [] = rate
  average rate (success ∷ results) =
      let kept = floats.mul (floats.sub floats.one floats.one_tenth) rate in
      average (if success then floats.add kept floats.one_tenth else kept) results

module _ {X C N K W : Type 0} (d : DnsProtocol) (contexts : ContextOps X N)
    (caches : LruOps C K CacheEntry) (floats : FloatOps W) (dec : Discrete K) where
  -- The state is what the methods leave that the calls mean, run on a new process.
  pub record Tracks (at_first : ConnectionType) (labels : List (Label N K)) (s : Network X C K W)
      : Type 0 where
    pub same_connection : s.device.current_connection ≡ connection at_first labels
    pub same_statistics : s.device.monitor ≡ History.run dec (events at_first labels)
    pub same_score : s.suspicion_score ≡ points (evidence labels)
    pub same_flag : (s.needs_doh_fallback ≡ true) ↔ Resolves (pac_scripts labels)
    pub same_rate :
        s.vpn_quic_rate ≡ Rate.run floats (vpn_results labels) (quic_success_rate_over_vpn floats)
    pub latest_config : (j : N) → Latest d j labels (contexts.get_ech_config j s.context)
    pub same_cache : s.device.cache ≡ Entries.run caches (cache_calls at_first labels) caches.empty
    pub latest_sent :
        (k : K) (e : CacheEntry)
        → caches.peek k s.device.cache ≡ some e
        → sent_config dec at_first k labels ≡ some e.config

  -- The state is what the calls say, without the methods: the counters of a host are those of its
  -- results; the entries of the cache are those of a map with times, as long as no more than 1000
  -- configs were stored since it was last cleared, and in any case what the host was last sent.
  pub record Refines (at_first : ConnectionType) (labels : List (Label N K)) (s : Network X C K W)
      : Type 0 where
    pub same_connection : s.device.current_connection ≡ connection at_first labels
    pub same_statistics :
        (host : K) → s.device.monitor host ≡ entry_of (results_of dec host (events at_first labels))
    pub same_score : s.suspicion_score ≡ points (evidence labels)
    pub same_flag : (s.needs_doh_fallback ≡ true) ↔ Resolves (pac_scripts labels)
    pub same_rate : s.vpn_quic_rate ≡ average floats floats.four_fifths (vpn_results labels)
    pub latest_config : (j : N) → Latest d j labels (contexts.get_ech_config j s.context)
    pub same_entries :
        count_stores 0 (cache_calls at_first labels) ≤ max_entries
        → (k : K)
        → caches.peek k s.device.cache ≡ timed_run dec (cache_calls at_first labels) (λ j. none) k
    pub latest_sent :
        (k : K) (e : CacheEntry)
        → caches.peek k s.device.cache ≡ some e
        → sent_config dec at_first k labels ≡ some e.config

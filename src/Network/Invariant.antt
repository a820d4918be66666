-- ===== src/Network/Invariant.antt =====
-- The invariant of the shared state, relative to the calls that were made, and the counters under
-- the calls that change them.
use kiwi_network_patches.Prelude.{
  ℕ, suc, ◌+◌, ◌≤◌, ◌≡◌, inl, inr, sym, subst, Bool, false, Option, some, some-injective, get_or,
  List, ◌∷◌, length, arith, Option-cases,
}
use mathlib.Core.Option.{some-ne-none}
use mathlib.Core.Logic.{if_pos, if_neg}
use kiwi_network_patches.Prelude.Bytes.{Bytes, is_empty}
use kiwi_network_patches.Platform.DnsProtocol.{DnsProtocol}
use kiwi_network_patches.Platform.ResolveContext.{ContextOps}
use kiwi_network_patches.Platform.LruCache.{LruOps}
use kiwi_network_patches.Dns.Record.{HttpsRecordResult}
use kiwi_network_patches.Dns.Process.FirstValid.{FirstValid}
use kiwi_network_patches.Retry.Cache.{CacheEntry, max_entries}
use kiwi_network_patches.Retry.Monitor.{
  HostStats, fresh_stats, Stats, count_result, record_result, reset,
}
use kiwi_network_patches.Network.{Network, Label, resolved, retried}

-- Some answer for the key `j` had records of which the first valid one has this configuration.
pub data FromDns (d : DnsProtocol) {N K : Type 0} : List (Label N K) → N → Bytes → Type 0 where
  answered :
      {labels : List (Label N K)} {nik j : N} {records : List Bytes} {config : Bytes}
      (r : HttpsRecordResult)
      → j ≡ nik
      → FirstValid d records (some r)
      → config ≡ r.ech_config
      → FromDns d (resolved nik records ∷ labels) j config
  before :
      {labels : List (Label N K)} {l : Label N K} {j : N} {config : Bytes}
      → FromDns d labels j config
      → FromDns d (l ∷ labels) j config

-- Some connection to the host `k` was sent this retry config.
pub data FromServer {N K : Type 0} : List (Label N K) → K → Bytes → Type 0 where
  sent :
      {labels : List (Label N K)} {now : ℕ} {host k : K} {o : Option Bytes} {config : Bytes}
      → k ≡ host
      → o ≡ some config
      → FromServer (retried now host o ∷ labels) k config
  sent_before :
      {labels : List (Label N K)} {l : Label N K} {k : K} {config : Bytes}
      → FromServer labels k config
      → FromServer (l ∷ labels) k config

-- The counters of a host do not contradict each other, and do not exceed a number of calls.
abbrev pub IsCounted : ℕ → HostStats → Type 0
IsCounted n st = (st.successes + st.consecutive_failures ≤ st.total) × (st.total ≤ n)

module _ {X C N K W : Type 0} (d : DnsProtocol) (contexts : ContextOps X N)
    (caches : LruOps C K CacheEntry) where
  -- The cache has at most 1000 entries; every ECH configuration of the context was in a record for
  -- its key, and every config of the cache was sent for its host; the counters are in order.
  pub record Inv (labels : List (Label N K)) (s : Network X C K W) : Type 0 where
    pub size_bound : caches.size s.device.cache ≤ max_entries
    pub ech_known :
        (j : N)
        → is_empty (contexts.get_ech_config j s.context) ≡ false
        → FromDns d labels j (contexts.get_ech_config j s.context)
    pub retry_known :
        (k : K) (e : CacheEntry)
        → caches.peek k s.device.cache ≡ some e
        → FromServer labels k e.config
    pub counted :
        (k : K) (st : HostStats) → s.device.monitor k ≡ some st → IsCounted (length labels) st

count_result-IsCounted :
    (n : ℕ) (b : Bool) (st : HostStats) → IsCounted n st → IsCounted (suc n) (count_result b st)
unfolding count_result
count_result-IsCounted n b st h = ground arith

module _ {K : Type 0} (dec : Discrete K) (n : ℕ) (m : Stats K)
    (h : (k : K) (st : HostStats) → m k ≡ some st → IsCounted n st) where
  get_or-IsCounted : (k : K) → IsCounted n (get_or (m k) fresh_stats)
  get_or-IsCounted k = elim (Option-cases (m k)) [
    | inl e ↦ rw e (omega arith, omega arith)
    | inr (st, e) ↦ rw e (h k st e)
  ]

  pub record_result-IsCounted :
      (host k : K) (b : Bool) (st : HostStats)
      → record_result dec host b m k ≡ some st
      → IsCounted (suc n) st
  unfolding record_result
  record_result-IsCounted host k b st e = elim (dec k host) [
    | yes same ↦
        subst (IsCounted (suc n)) (some-injective _ _ (rw (if_pos _ same) at e))
          (count_result-IsCounted n b _ (get_or-IsCounted host))
    | no other ↦ let bound = h k st (rw (if_neg _ other) at e) in (bound.0, omega (arith, bound.1))
  ]

  pub reset-IsCounted :
      (host k : K) (st : HostStats) → reset dec host m k ≡ some st → IsCounted (suc n) st
  unfolding reset
  reset-IsCounted host k st e = elim (dec k host) [
    | yes same ↦ absurd (some-ne-none st (sym (rw (if_pos _ same) at e)))
    | no other ↦ let bound = h k st (rw (if_neg _ other) at e) in (bound.0, omega (arith, bound.1))
  ]

  pub weaker-IsCounted : (k : K) (st : HostStats) → m k ≡ some st → IsCounted (suc n) st
  weaker-IsCounted k st e = let bound = h k st e in (bound.0, omega (arith, bound.1))

-- ===== src/Retry/Monitor.antt =====
-- ech_retry_handler.cc: `ECHDegradationMonitor`. The `std::map` is a function; the counters are
-- `int`s in the source, and exact numbers here. The lock makes each method one step.
pub mod History
pub mod Recovery
use kiwi_network_patches.Prelude.{
  ℕ, ◌+◌, ◌*◌, ◌/◌, Bool, true, false, ◌&&◌, Option, none, some, get_or, leb, ltb, if◌then◌else◌,
}
use mathlib.Core.Logic.{ite}

pub record HostStats : Type 0 where
  pub total : ℕ
  pub successes : ℕ
  pub consecutive_failures : ℕ

abbrev pub fresh_stats : HostStats
fresh_stats = record { total = 0; successes = 0; consecutive_failures = 0 }

abbrev pub Stats : Type 0 → Type 0
Stats K = K → Option HostStats

abbrev pub no_stats : {K : Type 0} → Stats K
no_stats k = none

-- The change of the counters in `RecordResult`.
unfoldable pub count_result : Bool → HostStats → HostStats
count_result success s =
    if success
    then record s { total = s.total + 1; successes = s.successes + 1; consecutive_failures = 0 }
    else record s { total = s.total + 1; consecutive_failures = s.consecutive_failures + 1 }

-- The conditions of `ShouldDisableECH` on the counters of a host.
unfoldable pub is_degraded : HostStats → Bool
is_degraded s =
    if leb 5 s.consecutive_failures
    then true
    else if leb 10 s.total && ltb (s.successes * 100 / s.total) 30
    then true
    else false

module _ {K : Type 0} (dec : Discrete K) where
  -- `stats_[host_port]` makes an entry of zeros where there is none.
  unfoldable pub record_result : K → Bool → Stats K → Stats K
  record_result host success stats k =
      ite (dec k host) (some (count_result success (get_or (stats host) fresh_stats))) (stats k)

  unfoldable pub should_disable_ech : K → Stats K → Bool
  should_disable_ech host stats = elim (stats host) [ none ↦ false | some s ↦ is_degraded s ]

  unfoldable pub reset : K → Stats K → Stats K
  reset host stats k = ite (dec k host) none (stats k)

  unfoldable pub clear_all : Stats K → Stats K
  clear_all stats = no_stats

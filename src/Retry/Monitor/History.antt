-- ===== src/Retry/Monitor/History.antt =====
-- ech_retry_handler.cc: the degradation monitor against the history of handshakes.
use kiwi_network_patches.Prelude.{
  ℕ, suc, ◌+◌, ◌*◌, ◌/◌, ◌≤◌, ◌<◌, ◌≡◌, ◌⊎◌, ◌↔◌, refl, sym, some-injective, ◌∙◌, ap, Bool, true,
  false, Option, none, some, get_or, List, [], ◌∷◌, length, arith, if◌then◌else◌,
}
use mathlib.Core.Logic.{ite, if_pos, if_neg}
use kiwi_network_patches.Retry.Monitor.{
  HostStats, fresh_stats, Stats, no_stats, count_result, is_degraded, record_result,
  should_disable_ech, reset, clear_all,
}

-- The results of one host, newest first.
abbrev pub count_true : List Bool → ℕ
count_true [] = 0
count_true (b ∷ bs) = if b then suc (count_true bs) else count_true bs

-- The failures since the last success.
abbrev pub leading_failures : List Bool → ℕ
leading_failures [] = 0
leading_failures (b ∷ bs) = if b then 0 else suc (leading_failures bs)

abbrev pub stats_of : List Bool → HostStats
stats_of bs = record {
  total = length bs;
  successes = count_true bs;
  consecutive_failures = leading_failures bs;
}

-- A host is degraded after five failures in a row, or with fewer than 30 percent successes in ten
-- results or more.
abbrev pub Degraded : List Bool → Type 0
Degraded bs =
    (5 ≤ leading_failures bs) ⊎ ((10 ≤ length bs) × (count_true bs * 100 < length bs * 30))

count_true-le : (bs : List Bool) → count_true bs + leading_failures bs ≤ length bs
count_true-le [] = omega arith
count_true-le (true ∷ bs) = omega (arith, count_true-le bs)
count_true-le (false ∷ bs) = omega (arith, count_true-le bs)

-- The comparison of percentages, with its division rounded down, is the exact one.
percent_iff : (s n : ℕ) → 0 < n → (s * 100 / n < 30) ↔ (s * 100 < n * 30)
percent_iff s n h = (λ e. grind arith, λ e. grind arith)

is_degraded_iff : (bs : List Bool) → (is_degraded (stats_of bs) ≡ true) ↔ Degraded bs
unfolding is_degraded
is_degraded_iff bs =
    let percent = percent_iff (count_true bs) (length bs) in
    (λ e. ground (arith, percent), λ e. ground (arith, percent))

-- The calls that change the statistics.
pub data Event (K : Type 0) : Type 0 where
  handshake : K → Bool → Event K
  resets : K → Event K
  clears : Event K

-- What the map holds of a host with these results.
abbrev pub entry_of : List Bool → Option HostStats
entry_of [] = none
entry_of (b ∷ bs) = some (stats_of (b ∷ bs))

count_result-entry_of :
    (b : Bool) (bs : List Bool)
    → count_result b (get_or (entry_of bs) fresh_stats) ≡ stats_of (b ∷ bs)
unfolding count_result
count_result-entry_of true [] = refl
count_result-entry_of false [] = refl
count_result-entry_of true (x ∷ bs) = ground arith
count_result-entry_of false (x ∷ bs) = ground arith

entry_iff :
    (bs : List Bool)
    → (elim (entry_of bs) [ none ↦ false | some s ↦ is_degraded s ] ≡ true) ↔ Degraded bs
entry_iff [] = (λ e. absurd (cc), λ h. absurd (omega arith))
entry_iff (b ∷ bs) = is_degraded_iff (b ∷ bs)

entry_of-some : (bs : List Bool) (s : HostStats) → entry_of bs ≡ some s → s ≡ stats_of bs
entry_of-some [] s e = cc
entry_of-some (b ∷ bs) s e = sym (some-injective _ _ e)

module _ {K : Type 0} (dec : Discrete K) where
  -- The statistics after a history of calls, newest first.
  unfoldable pub run : List (Event K) → Stats K
  run [] = no_stats
  run (handshake k b ∷ older) = record_result dec k b (run older)
  run (resets k ∷ older) = reset dec k (run older)
  run (clears ∷ older) = clear_all dec (run older)

  -- The results of a host since it was last reset, newest first.
  unfoldable pub results_of : K → List (Event K) → List Bool
  results_of host [] = []
  results_of host (handshake k b ∷ older) =
      ite (dec host k) (b ∷ results_of host older) (results_of host older)
  results_of host (resets k ∷ older) = ite (dec host k) [] (results_of host older)
  results_of host (clears ∷ older) = []

  pub run-results_of :
      (host : K) (events : List (Event K)) → run events host ≡ entry_of (results_of host events)
  unfolding run results_of record_result reset clear_all
  run-results_of host [] = refl
  run-results_of host (handshake k b ∷ older) = elim (dec host k) [
    | yes p ↦
        rw (if_pos _ p, if_pos _ p, ← p, run-results_of host older)
          (ap some (count_result-entry_of b (results_of host older)))
    | no p ↦ rw (if_neg _ p, if_neg _ p) (run-results_of host older)
  ]
  run-results_of host (resets k ∷ older) = elim (dec host k) [
    | yes p ↦ rw (if_pos _ p, if_pos _ p)
    | no p ↦ rw (if_neg _ p, if_neg _ p) (run-results_of host older)
  ]
  run-results_of host (clears ∷ older) = refl

  length-results_of :
      (host : K) (events : List (Event K)) → length (results_of host events) ≤ length events
  unfolding results_of
  length-results_of host [] = omega arith
  length-results_of host (handshake k b ∷ older) = ground (arith, length-results_of host older)
  length-results_of host (resets k ∷ older) = ground (arith, length-results_of host older)
  length-results_of host (clears ∷ older) = omega arith

  -- After any history of handshakes, resets and network changes, ECH is to be disabled for a host
  -- exactly if the host is degraded by its own results since its last reset.
  pub should_disable_ech_iff :
      (host : K) (events : List (Event K))
      → (should_disable_ech dec host (run events) ≡ true) ↔ Degraded (results_of host events)
  unfolding should_disable_ech
  should_disable_ech_iff host events =
      rw (run-results_of host events, should_disable_ech) (entry_iff (results_of host events))

  -- With fewer than 21474837 handshakes no counter and no product leaves the range of a 32-bit
  -- `int`.
  pub run-fits :
      (host : K) (events : List (Event K)) (s : HostStats)
      → length events < 21474837
      → run events host ≡ some s
      → (s.successes * 100 < 2147483648)
        × (s.total < 2147483648)
        × (s.consecutive_failures < 2147483648)
  run-fits host events s h e =
      let bound = length-results_of host events in
      let parts = count_true-le (results_of host events) in
      let same = entry_of-some (results_of host events) s (sym (run-results_of host events) ∙ e) in
      rw same (omega arith)

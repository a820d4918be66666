-- ===== src/Tests/Retry.antt =====
-- The cache of retry configs and the degradation monitor, with numbers for the hosts.
use kiwi_network_patches.Prelude.{
  ℕ, ◌≡◌, ◌<◌, ◌*◌, ◌++◌, ◌↔◌, refl, true, false, none, some, List, [], ◌∷◌, arith, ℕ_discrete, inl,
}
use kiwi_network_patches.Prelude.Bytes.{Bytes}
use kiwi_network_patches.Retry.Cache.{get, ok, handle_ech_retry}
use kiwi_network_patches.Retry.Cache.Entries
use kiwi_network_patches.Retry.Cache.Entries.{
  get-store, get-store_expired, run-size, op_store, op_get, op_invalidate, op_clear, Op,
}
use kiwi_network_patches.Retry.Cache.Peeks.{fresh_only}
use kiwi_network_patches.Retry.Cache.Exact.{config_of, timed_run, get-timed_run}
use kiwi_network_patches.Retry.Monitor.Recovery.{
  successes, Interleaves, neither, first, second, should_disable_ech-Interleaves,
  should_disable_ech-successes, should_disable_ech-append,
}
use kiwi_network_patches.Retry.Cache.Handler.{handle_ech_retry-config}
use kiwi_network_patches.Retry.Monitor.{
  HostStats, record_result, reset, count_result, is_degraded, should_disable_ech,
}
use kiwi_network_patches.Retry.Monitor.History
use kiwi_network_patches.Retry.Monitor.History.{
  Event, handshake, resets, Degraded, results_of, should_disable_ech_iff, run-fits,
}
use kiwi_network_patches.Platform.BoringSsl.{Trace}
use kiwi_network_patches.Tls.EchManager.{EchRetry, ech_retry_callback}
use kiwi_network_patches.Retry.Cache.Offers.{Offered, ech_retry_callback-handle_ech_retry}
use kiwi_network_patches.Tests.World.{
  all_features, willing, list_cbs, list_cbs-IsCbs, are_bytes-AreBytes,
}
use kiwi_network_patches.Tests.Caches.{caches, caches-IsLru}

abbrev pub new_config : Bytes
new_config = 1 ∷ 2 ∷ []

abbrev asked : List (Op ℕ)
asked =
    op_store 0 6 []
    ∷ op_clear
    ∷ op_store 1 5 new_config
    ∷ op_get 2 5
    ∷ op_store 3 6 []
    ∷ op_invalidate 6
    ∷ []

get-timed_run_example :
    (get caches 1000 5 (Entries.run caches asked [])).0
    ≡ config_of (fresh_only 1000 (timed_run ℕ_discrete asked (λ j. none) 5))
get-timed_run_example = get-timed_run caches caches-IsLru ℕ_discrete asked 1000 5 (omega arith)

handle_ech_retry-config_example :
    ((handle_ech_retry caches all_features (willing (some new_config)) 10 5 [] []).0 ≡ ok)
    × ((get caches 1000 5
          (handle_ech_retry caches all_features (willing (some new_config)) 10 5 [] []).1).0
        ≡ new_config)
handle_ech_retry-config_example =
    handle_ech_retry-config caches all_features (willing (some new_config)) caches-IsLru 10 1000 5
      new_config [] [] refl refl refl (omega arith)

abbrev one_item : Bytes
one_item = 254 ∷ 13 ∷ 0 ∷ 2 ∷ 1 ∷ 2 ∷ []

ech_retry_callback-handle_ech_retry_example :
    (answer : EchRetry) × (t : Trace) × (ech_retry_callback list_cbs (willing (some one_item)) []
      ≡ some (answer, t))
    × ((v : Bytes)
        → Offered v t
        → Offered v (handle_ech_retry caches all_features (willing (some one_item)) 10 5 [] []).2
        → ⊥)
ech_retry_callback-handle_ech_retry_example =
    ech_retry_callback-handle_ech_retry caches all_features (willing (some one_item)) one_item refl
      list_cbs list_cbs-IsCbs 10 5 [] (are_bytes-AreBytes one_item refl)

-- Three failures of a host since its reset, and a success of another.
abbrev events : List (Event ℕ)
events =
    handshake 1 false
    ∷ handshake 2 true
    ∷ handshake 1 false
    ∷ handshake 1 false
    ∷ resets 1
    ∷ handshake 1 false
    ∷ []

should_disable_ech_iff_example :
    (should_disable_ech ℕ_discrete 1 (History.run ℕ_discrete events) ≡ true)
    ↔ Degraded (results_of ℕ_discrete 1 events)
should_disable_ech_iff_example = should_disable_ech_iff ℕ_discrete 1 events

abbrev counted : HostStats
counted = record { total = 3; successes = 0; consecutive_failures = 3 }

run-events : History.run ℕ_discrete events 1 ≡ some counted
unfolding History.run record_result reset count_result ℕ_discrete
run-events = refl

run-fits_example :
    (counted.successes * 100 < 2147483648)
    × (counted.total < 2147483648)
    × (counted.consecutive_failures < 2147483648)
run-fits_example = run-fits ℕ_discrete 1 events counted (omega arith) run-events

abbrev of_one : List (Event ℕ)
of_one = handshake 1 false ∷ resets 1 ∷ []

abbrev of_two : List (Event ℕ)
of_two = handshake 2 true ∷ resets 2 ∷ []

mixed : Interleaves of_one of_two (handshake 1 false ∷ of_two ++ (resets 1 ∷ []))
mixed =
    first (handshake 1 false)
      (second (handshake 2 true) (second (resets 2) (first (resets 1) neither)))

should_disable_ech-Interleaves_example :
    should_disable_ech ℕ_discrete 1
      (History.run ℕ_discrete (handshake 1 false ∷ of_two ++ (resets 1 ∷ [])))
    ≡ should_disable_ech ℕ_discrete 1 (History.run ℕ_discrete of_one)
should_disable_ech-Interleaves_example =
    should_disable_ech-Interleaves ℕ_discrete 1 mixed
      ((λ e. absurd (omega arith)), ((λ e. absurd (omega arith)), tt))

should_disable_ech-successes_example :
    should_disable_ech ℕ_discrete 1 (History.run ℕ_discrete (successes 1 3 events)) ≡ false
unfolding results_of ℕ_discrete
should_disable_ech-successes_example =
    should_disable_ech-successes ℕ_discrete 1 2 events (omega arith)

-- Five failures of a host.
abbrev failures : List (Event ℕ)
failures =
    handshake 1 false
    ∷ handshake 1 false
    ∷ handshake 1 false
    ∷ handshake 1 false
    ∷ handshake 1 false
    ∷ []

failures-disable : should_disable_ech ℕ_discrete 1 (History.run ℕ_discrete failures) ≡ true
unfolding should_disable_ech History.run record_result count_result is_degraded ℕ_discrete
failures-disable = refl

should_disable_ech-append_example :
    should_disable_ech ℕ_discrete 1 (History.run ℕ_discrete (handshake 2 true ∷ [] ++ failures))
    ≡ true
should_disable_ech-append_example =
    should_disable_ech-append ℕ_discrete 1 (handshake 2 true ∷ []) failures
      (inl (λ e. absurd (omega arith)), tt) failures-disable

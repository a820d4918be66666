-- ===== src/Tests/Suite/Retries.antt =====
-- unittests/ech_retry_handler_test.cc; the hosts are numbers.
use kiwi_network_patches.Prelude.{
  ℕ, zero, suc, ◌≡◌, refl, Bool, true, false, List, [], ◌∷◌, ◌++◌, ℕ_discrete,
}
use kiwi_network_patches.Prelude.Bytes.{text}
use kiwi_network_patches.Retry.Cache.{store, get, invalidate, clear, size}
use kiwi_network_patches.Retry.Monitor.{
  record_result, reset, count_result, is_degraded, should_disable_ech,
}
use kiwi_network_patches.Retry.Monitor.History.{Event, handshake, resets, run}
use kiwi_network_patches.Tests.Caches.{caches}

cache_store_and_retrieve :
    (get caches 2 1 (store caches 1 1 (text "retry_config_data_here") [])).0
    ≡ text "retry_config_data_here"
unfolding get store
cache_store_and_retrieve = refl

cache_miss : (get caches 2 9 (store caches 1 1 (text "config") [])).0 ≡ []
unfolding get store
cache_miss = refl

cache_invalidate :
    (get caches 2 1 (invalidate caches 1 (store caches 1 1 (text "config") []))).0 ≡ []
unfolding get store invalidate
cache_invalidate = refl

cache_clear :
    size caches
      (clear caches (store caches 2 2 (text "config_b") (store caches 1 1 (text "config_a") [])))
    ≡ 0
unfolding size clear store
cache_clear = refl

-- So many results of one kind of host 1.
abbrev results : ℕ → Bool → List (Event ℕ)
results zero b = []
results (suc n) b = handshake 1 b ∷ results n b

-- What `ShouldDisableECH` says of host 1 behind calls, the newest first.
abbrev answer : List (Event ℕ) → Bool
answer events = should_disable_ech ℕ_discrete 1 (run ℕ_discrete events)

degradation_detection : answer (results 5 false) ≡ true
unfolding should_disable_ech run record_result count_result is_degraded ℕ_discrete
degradation_detection = refl

degradation_reset_on_success :
    answer (results 5 false ++ (results 1 true ++ results 3 false)) ≡ true
unfolding should_disable_ech run record_result count_result is_degraded ℕ_discrete
degradation_reset_on_success = refl

-- The name of the case before, which that case does not test: behind the success itself.
not_degraded_on_success : answer (results 1 true ++ results 3 false) ≡ false
unfolding should_disable_ech run record_result count_result is_degraded ℕ_discrete
not_degraded_on_success = refl

high_failure_rate : answer (results 2 true ++ results 10 false) ≡ true
unfolding should_disable_ech run record_result count_result is_degraded ℕ_discrete
high_failure_rate = refl

low_failure_rate_allowed : answer (results 8 true ++ results 4 false) ≡ false
unfolding should_disable_ech run record_result count_result is_degraded ℕ_discrete
low_failure_rate_allowed = refl

reset_stats : answer (resets 1 ∷ results 10 false) ≡ false
unfolding should_disable_ech run record_result reset count_result is_degraded ℕ_discrete
reset_stats = refl

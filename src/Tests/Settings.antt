-- ===== src/Tests/Settings.antt =====
-- Network context parameters and the security score at concrete inputs.
use kiwi_network_patches.Prelude.{
  ◌+◌, ◌≤◌, ◌↔◌, ◌&&◌, leb, ◌≡◌, true, false, none, some, List, [], ◌∷◌,
}
use kiwi_network_patches.Metrics.{calculate_security_score}
use kiwi_network_patches.Metrics.Score.{weight, calculate_security_score-full}
use kiwi_network_patches.System.{NetworkContextParams}
use kiwi_network_patches.System.Calls
use kiwi_network_patches.System.Calls.{Call, doh, http3, mojo, is_called, expected, run-expected}

abbrev fresh_params : NetworkContextParams
fresh_params = record {
  defaults = record { default_ech_config = 1 ∷ []; default_pq_key_exchange = [] };
  dns_over_https_config = none;
  dns_over_https_fallback = false;
  dns_over_https_attempts = 0;
  enable_alt_svc_cache = false;
  alt_svc_cache_size = 0;
  alt_svc_probe_interval_seconds = 0;
  alt_svc_learn_interval_seconds = 0;
  alt_svc_allow_non_secure = true;
  enable_reporting = false;
  enable_network_error_logging = false;
}

abbrev setup : List Call
setup = http3 ∷ mojo ∷ doh ∷ http3 ∷ []

run-expected_example :
    Calls.run (λ f. true) setup (some fresh_params)
    ≡ some (expected (λ c. is_called c setup) fresh_params)
run-expected_example = run-expected (λ f. true) setup fresh_params

calculate_security_score-full_example :
    let score = calculate_security_score true false true true 0x0304 in
    (score
      ≡ weight true 30
        + weight false 20
        + weight true 15
        + weight true 20
        + weight (leb 0x0304 0x0304) 15)
    × (score ≤ 100)
    × ((score ≡ 100) ↔ ((true && (false && (true && (true && leb 0x0304 0x0304)))) ≡ true))
calculate_security_score-full_example = calculate_security_score-full true false true true 0x0304

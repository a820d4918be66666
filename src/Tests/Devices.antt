-- ===== src/Tests/Devices.antt =====
-- Interception, PAC scripts, network changes and results over a VPN at concrete inputs.
use kiwi_network_patches.Prelude.{
  ℕ, ◌+◌, ◌-◌, ◌*◌, ◌/◌, ltb, arith, Bool, ◌++◌, ◌≡◌, ◌≢◌, ◌≤◌, ◌<◌, ◌↔◌, refl, true, false, some,
  List, [], ◌∷◌, ℕ_discrete,
}
use kiwi_network_patches.Tls.Config.{SslConfig}
use kiwi_network_patches.Retry.Cache.{CacheEntry}
use kiwi_network_patches.Retry.Monitor.{HostStats}
use kiwi_network_patches.Proxy.{scheme_socks5, Evidence, is_connection_intercepted, ProxyInfo}
use kiwi_network_patches.Android.{
  ConnectionType, connection_wifi, connection_5g, connection_3g, Device, on_active_network_changed,
  on_network_changed,
}
use kiwi_network_patches.Proxy.Score.{
  Seen, connection, environment, score_after, since, points, is_connection_intercepted_iff,
  score_after-fits,
}
use kiwi_network_patches.Retry.Cache.Entries.{op_store, op_get}
use kiwi_network_patches.Retry.Monitor.History.{handshake}
use kiwi_network_patches.Android.Interleaving
use kiwi_network_patches.Android.Interleaving.{
  Call, on_cache, on_monitor, cache_calls, monitor_calls, begin_switch, finish_switch,
  on_network_changed-between,
}
use kiwi_network_patches.Android.Switching
use kiwi_network_patches.Android.Switching.{Clean, run-Clean, run-untracked}
use kiwi_network_patches.Platform.Float.{FloatOps, IsRounded}
use kiwi_network_patches.Android.Vpn.{
  quic_success_rate_over_vpn, should_use_quic_over_vpn, record_quic_result_over_vpn,
}
use kiwi_network_patches.Android.Vpn.Rate
use kiwi_network_patches.Android.Vpn.Rate.{
  both_empty, both, should_use_quic-Below, should_use_quic-append,
}
use kiwi_network_patches.Tests.Caches.{Entries, caches, caches-IsLru}

-- An enterprise certificate without a retry config, and a connection without any sign.
abbrev suspicious : Evidence
suspicious = record {
  evidence_ech_accepted = false;
  ech_retry_config = [];
  authority_invalid = true;
  common_name_invalid = false;
  ocsp_provided = true;
}

abbrev innocent : Evidence
innocent = record {
  evidence_ech_accepted = true;
  ech_retry_config = [];
  authority_invalid = false;
  common_name_invalid = false;
  ocsp_provided = true;
}

abbrev socks : ProxyInfo
socks = record { is_direct = false; proxy_scheme = scheme_socks5 }

abbrev some_config : SslConfig
some_config = record {
  ech_config_list = 1 ∷ [];
  ech_grease_enabled = true;
  tls13_early_data_enabled = false;
  tls13_key_update_interval = 0;
  pq_key_exchange_preference = [];
}

abbrev session : List Seen
session = connection innocent ∷ connection suspicious ∷ environment socks some_config ∷ []

is_connection_intercepted_iff_example :
    ((is_connection_intercepted suspicious (score_after session)).0 ≡ true)
    ↔ (60 ≤ points (suspicious ∷ since session))
is_connection_intercepted_iff_example = is_connection_intercepted_iff suspicious session

score_after-fits_example : score_after session < 2147483648
score_after-fits_example = score_after-fits session (omega arith)

abbrev failing : HostStats
failing = record { total = 5; successes = 0; consecutive_failures = 5 }

abbrev entry : CacheEntry
entry = record { config = 1 ∷ []; stored_at = 3 }

abbrev phone : Device Entries ℕ
phone = record {
  current_connection = connection_wifi;
  monitor = λ k. some failing;
  cache = (5, entry) ∷ [];
}

abbrev to_5g : List ConnectionType
to_5g = connection_3g ∷ connection_5g ∷ []

changed :
    (Switching.run caches ℕ_discrete to_5g phone).current_connection ≢ phone.current_connection
unfolding on_network_changed on_active_network_changed
changed e = cc

run-Clean_example : Clean caches ℕ_discrete (Switching.run caches ℕ_discrete to_5g phone)
run-Clean_example = run-Clean caches caches-IsLru ℕ_discrete to_5g phone changed

-- Rates in millionths, rounded down.
abbrev pub millionths : FloatOps ℕ
millionths = record {
  one = 1000000;
  one_tenth = 100000;
  four_fifths = 800000;
  add = λ x y. x + y;
  sub = λ x y. x - y;
  mul = λ x y. x * y / 1000000;
  exceeds_three_tenths = λ x. ltb 300000 x;
}

millionths-IsRounded : IsRounded millionths
millionths-IsRounded = record {
  Le = λ x y. x ≤ y;
  zero = 0;
  le_refl = λ x. omega arith;
  le_trans = λ x y z h k. omega arith;
  add-le = λ x y h. omega arith;
  mul-le = λ x y h. omega arith;
  le-add = λ x h. omega arith;
  exceeds-le = λ x y h k. ground arith;
  mul-zero = omega arith;
  mul-one = omega arith;
  full = omega arith;
  zero_le = omega arith;
  le_one = omega arith;
}

abbrev four_successes : List Bool
four_successes = true ∷ true ∷ true ∷ true ∷ []

revived :
    millionths.exceeds_three_tenths (Rate.run millionths four_successes millionths-IsRounded.zero)
    ≡ true
unfolding record_quic_result_over_vpn millionths-IsRounded
revived = refl

should_use_quic-append_example :
    should_use_quic_over_vpn millionths true (
      Rate.run millionths
        (false ∷ false ∷ [] ++ four_successes)
        (quic_success_rate_over_vpn millionths))
    ≡ true
should_use_quic-append_example =
    should_use_quic-append millionths millionths-IsRounded (false ∷ false ∷ []) four_successes true
      revived

-- A thread that stores a config, reports a failure and reads a config while the network switches.
abbrev between : List (Call ℕ)
between =
    on_cache (op_store 9 6 (2 ∷ [])) ∷ on_monitor (handshake 7 false) ∷ on_cache (op_get 10 5) ∷ []

on_network_changed-between_example :
    let atomic =
      on_network_changed caches ℕ_discrete connection_5g
        (Interleaving.run caches ℕ_discrete (cache_calls between) phone) in
    let interrupted =
      Interleaving.run caches ℕ_discrete between
        (begin_switch caches ℕ_discrete connection_5g phone) in
    (finish_switch caches ℕ_discrete interrupted
      ≡ Interleaving.run caches ℕ_discrete (monitor_calls between) atomic)
    × (interrupted.cache ≡ (Interleaving.run caches ℕ_discrete (cache_calls between) phone).cache)
    × (interrupted.monitor
        ≡ (Interleaving.run caches ℕ_discrete (monitor_calls between) atomic).monitor)
on_network_changed-between_example =
    on_network_changed-between caches ℕ_discrete connection_5g between phone refl
      (λ e. absurd (omega arith))

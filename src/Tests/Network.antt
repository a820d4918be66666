-- ===== src/Tests/Network.antt =====
-- The shared state behind a record of a name and a failed handshake.
use kiwi_network_patches.Prelude.{
  true, Bool, ◌++◌, ◌≡◌, ◌↔◌, none, some, if◌then◌else◌, ℕ, refl, false, List, [], ◌∷◌, arith,
  ℕ_discrete,
}
use kiwi_network_patches.Retry.Monitor.{record_result}
use kiwi_network_patches.Android.{connection_wifi}
use kiwi_network_patches.Network.{
  Network, Label, resolved, retried, reported, Step, resolve, retry, report, start, Reach, here,
  next,
}
use kiwi_network_patches.Network.Invariant.{Inv}
use kiwi_network_patches.Network.Reached.{Reach-Inv}
use kiwi_network_patches.Network.Abstract.{events, Latest, Refines}
use kiwi_network_patches.Network.Abstract.Total.{Reach-total}
use kiwi_network_patches.Retry.Monitor.{should_disable_ech}
use kiwi_network_patches.Retry.Monitor.History.{Degraded, results_of}
use kiwi_network_patches.Network.Abstract.Answers.{can_use_0rtt_with_ech-Reach}
use kiwi_network_patches.Quic.{can_use_0rtt_with_ech}
use kiwi_network_patches.Retry.Cache.{handle_ech_retry}
use kiwi_network_patches.Retry.Cache.Exact.{timed_step}
use kiwi_network_patches.Tests.Retry.{new_config}
use kiwi_network_patches.Network.Abstract.Refinement.{
  should_disable_ech-Reach, Reach-Refines, request-Latest,
}
use kiwi_network_patches.Network.Abstract.Connection.{configure_kiwi_ssl-Latest}
use kiwi_network_patches.Platform.BoringSsl.{set_permute_extensions, Trace}
use kiwi_network_patches.Tls.Config.{balanced}
use kiwi_network_patches.Tls.EchManager.{configure_ech}
use kiwi_network_patches.Tls.Connection.{configure_kiwi_ssl}
use kiwi_network_patches.Tls.Connection.Profiles.{key_update_calls, early_data_calls, common_calls}
use kiwi_network_patches.Request.{configure_ssl_for_request}
use kiwi_network_patches.Request.Pipeline.{request_with}
use kiwi_network_patches.Prelude.Bytes.{Bytes, is_empty}
use kiwi_network_patches.Request.{apply_ech_config_to_request}
use kiwi_network_patches.Tests.World.{
  protocol-IsAddressCheck, willing, list_cbs, list_cbs-IsCbs, protocol, all_features, contexts,
  contexts-IsContext, Stored, nothing_stored,
}
use kiwi_network_patches.Tests.Caches.{Entries, caches, caches-IsLru}
use kiwi_network_patches.Tests.Devices.{millionths}
use kiwi_network_patches.Tests.Dns.{raw, raw_bytes}
use kiwi_network_patches.Tests.Request.{after, processed, empty_config}

abbrev pub at_start : Network Stored Entries ℕ ℕ
at_start =
    start all_features list_cbs protocol contexts caches millionths ℕ_discrete nothing_stored
      connection_wifi

abbrev answered : Network Stored Entries ℕ ℕ
answered = record at_start { context = after }

abbrev failed : Network Stored Entries ℕ ℕ
failed = record answered {
  device = record answered.device {
    monitor = record_result ℕ_discrete 5 false answered.device.monitor;
  };
}

abbrev labels : List (Label ℕ ℕ)
labels = reported 5 false ∷ resolved 7 (raw ∷ []) ∷ []

answered-Step :
    Step all_features list_cbs protocol contexts caches millionths ℕ_discrete at_start
      (resolved 7 (raw ∷ []))
      answered
answered-Step = resolve 7 (raw ∷ []) (raw_bytes, tt) processed

failed-Step :
    Step all_features list_cbs protocol contexts caches millionths ℕ_discrete answered
      (reported 5 false)
      failed
failed-Step = report 5 false

failed-Reach :
    Reach all_features list_cbs protocol contexts caches millionths ℕ_discrete at_start labels
      failed
failed-Reach = next (next here answered-Step) failed-Step

-- Behind the failure the server of host 5 sends a config.
abbrev retried_state : Network Stored Entries ℕ ℕ
retried_state = record failed {
  device = record failed.device {
    cache =
        (handle_ech_retry caches all_features (willing (some new_config)) 10 5 failed.device.cache
          []).1;
  };
}

abbrev retried_labels : List (Label ℕ ℕ)
retried_labels = retried 10 5 (some new_config) ∷ labels

retried-Reach :
    Reach all_features list_cbs protocol contexts caches millionths ℕ_discrete at_start
      retried_labels retried_state
retried-Reach = next failed-Reach (retry 10 5 (some new_config) (willing (some new_config)) [] refl)

Reach-Inv_example : Inv protocol contexts caches retried_labels retried_state
Reach-Inv_example =
    Reach-Inv all_features list_cbs list_cbs-IsCbs protocol contexts contexts-IsContext caches
      millionths caches-IsLru ℕ_discrete ℕ_discrete nothing_stored connection_wifi (λ j. refl)
      retried-Reach

Reach-Refines_example :
    Refines protocol contexts caches millionths ℕ_discrete connection_wifi retried_labels
      retried_state
Reach-Refines_example =
    Reach-Refines all_features list_cbs list_cbs-IsCbs protocol contexts contexts-IsContext caches
      millionths caches-IsLru ℕ_discrete ℕ_discrete refl refl connection_wifi nothing_stored
      (λ j. refl) retried-Reach

request-Latest_example :
    (config : Bytes) × Latest protocol 7 labels config
    × (apply_ech_config_to_request contexts all_features (request_with failed.context 7)
        ≡ (if is_empty config then none else some config))
    × ((config' : Bytes) → Latest protocol 7 labels config' → config' ≡ config)
request-Latest_example =
    request-Latest all_features list_cbs list_cbs-IsCbs protocol contexts contexts-IsContext caches
      millionths caches-IsLru ℕ_discrete ℕ_discrete refl refl connection_wifi nothing_stored
      (λ j. refl) failed-Reach 7

configure_kiwi_ssl-Latest_example :
    (config : Bytes) × Latest protocol 7 labels config
    × (b : Bool) × (t1 : Trace) × (configure_ech list_cbs (willing none) all_features config []
        ≡ some (b, t1))
    × (configure_kiwi_ssl list_cbs
          (willing none)
          all_features
          (configure_ssl_for_request contexts all_features empty_config
            (some (request_with failed.context 7)))
          []
        ≡ some (
            key_update_calls balanced
            ++ (set_permute_extensions ∷ (early_data_calls balanced ++ (common_calls ++ t1)))))
configure_kiwi_ssl-Latest_example =
    configure_kiwi_ssl-Latest all_features list_cbs list_cbs-IsCbs protocol protocol-IsAddressCheck
      contexts contexts-IsContext caches millionths caches-IsLru ℕ_discrete ℕ_discrete refl
      (record {
        ech = refl;
        kyber = refl;
        early_data = refl;
        permutation = refl;
        key_update = refl;
      })
      connection_wifi nothing_stored (λ j. refl) failed-Reach 7 empty_config (willing none) [] refl
      (λ t1. refl)

can_use_0rtt_with_ech-Reach_example :
    (can_use_0rtt_with_ech caches 1000 5 (9 ∷ []) retried_state.device.cache).0 ≡ false
unfolding timed_step ℕ_discrete
can_use_0rtt_with_ech-Reach_example =
    can_use_0rtt_with_ech-Reach all_features list_cbs list_cbs-IsCbs protocol contexts
      contexts-IsContext caches millionths caches-IsLru ℕ_discrete ℕ_discrete refl refl
      connection_wifi nothing_stored (λ j. refl) retried-Reach 1000 5 (9 ∷ []) (omega arith)

Reach-total_example :
    (u : Network Stored Entries ℕ ℕ) × Reach all_features list_cbs protocol contexts caches
      millionths ℕ_discrete at_start retried_labels u
    × Refines protocol contexts caches millionths ℕ_discrete connection_wifi retried_labels u
    × ((u' : Network Stored Entries ℕ ℕ)
        → Reach all_features list_cbs protocol contexts caches millionths ℕ_discrete at_start
            retried_labels u'
        → u' ≡ u)
Reach-total_example =
    Reach-total all_features list_cbs list_cbs-IsCbs protocol contexts contexts-IsContext caches
      millionths caches-IsLru ℕ_discrete ℕ_discrete refl refl connection_wifi nothing_stored
      (λ j. refl) retried_labels (tt, (tt, ((raw_bytes, tt), tt)))

should_disable_ech-Reach_example :
    (should_disable_ech ℕ_discrete 5 retried_state.device.monitor ≡ true)
    ↔ Degraded (results_of ℕ_discrete 5 (events connection_wifi retried_labels))
should_disable_ech-Reach_example =
    should_disable_ech-Reach all_features list_cbs list_cbs-IsCbs protocol contexts
      contexts-IsContext caches millionths caches-IsLru ℕ_discrete ℕ_discrete refl refl
      connection_wifi nothing_stored (λ j. refl) retried-Reach 5

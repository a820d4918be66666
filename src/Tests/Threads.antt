-- ===== src/Tests/Threads.antt =====
-- A switch of the network, and a failed handshake of another thread in the middle of it or behind it.
use kiwi_network_patches.Prelude.{ℕ, ◌≡◌, refl, false, List, [], ◌∷◌, ℕ_discrete}
use kiwi_network_patches.Retry.Cache.{clear}
use kiwi_network_patches.Retry.Monitor.{record_result, clear_all}
use kiwi_network_patches.Android.{connection_wifi, connection_4g, enter_network, on_network_changed}
use kiwi_network_patches.Network.{
  Network, Label, reported, all_reset, all_dropped, moved, switched, report, clear_monitor,
  clear_cache, move, switch, Reach, here, next,
}
use kiwi_network_patches.Network.Objects.{
  the_context, the_connection, the_monitor, the_cache, the_score, the_flag, the_rate, Agree,
}
use kiwi_network_patches.Network.Abstract.Split.{split}
use kiwi_network_patches.Network.Abstract.Threads.{Reach-Agree}
use kiwi_network_patches.Tests.World.{
  list_cbs, list_cbs-IsCbs, protocol, all_features, contexts, Stored, nothing_stored,
}
use kiwi_network_patches.Tests.Caches.{Entries, caches}
use kiwi_network_patches.Tests.Devices.{millionths}
use kiwi_network_patches.Tests.Network.{at_start}

abbrev behind_switch : List (Label ℕ ℕ)
behind_switch = reported 5 false ∷ switched connection_4g ∷ []

abbrev within_switch : List (Label ℕ ℕ)
within_switch = all_dropped ∷ reported 5 false ∷ all_reset ∷ moved connection_4g ∷ []

abbrev whole : Network Stored Entries ℕ ℕ
whole =
    let switched_device = on_network_changed caches ℕ_discrete connection_4g at_start.device in
    record at_start {
      device = record switched_device {
        monitor = record_result ℕ_discrete 5 false switched_device.monitor;
      };
    }

abbrev interrupted : Network Stored Entries ℕ ℕ
interrupted =
    let moved_device = enter_network connection_4g at_start.device in
    record at_start {
      device = record moved_device {
        monitor = record_result ℕ_discrete 5 false (clear_all ℕ_discrete moved_device.monitor);
        cache = clear caches moved_device.cache;
      };
    }

whole-Reach :
    Reach all_features list_cbs protocol contexts caches millionths ℕ_discrete at_start
      behind_switch whole
whole-Reach = next (next here (switch connection_4g)) (report 5 false)

interrupted-Reach :
    Reach all_features list_cbs protocol contexts caches millionths ℕ_discrete at_start
      within_switch interrupted
interrupted-Reach =
    next (next (next (next here (move connection_4g)) clear_monitor) (report 5 false)) clear_cache

both-Agree : Agree (split connection_wifi behind_switch) (split connection_wifi within_switch)
both-Agree the_context = refl
both-Agree the_connection = refl
both-Agree the_monitor = refl
both-Agree the_cache = refl
both-Agree the_score = refl
both-Agree the_flag = refl
both-Agree the_rate = refl

Reach-Agree_example : whole ≡ interrupted
Reach-Agree_example =
    Reach-Agree all_features list_cbs list_cbs-IsCbs protocol contexts caches millionths ℕ_discrete
      connection_wifi nothing_stored whole-Reach interrupted-Reach both-Agree

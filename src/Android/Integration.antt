-- ===== src/Android/Integration.antt =====
-- android_network_config.cc: the registration of the observer, and the answers that do not look at
-- the device. `N` is the type of states of Chromium's notifier.
use kiwi_network_patches.Prelude.{ℕ, Bool, false, List, [], if◌then◌else◌}
use kiwi_network_patches.Prelude.Bytes.{Bytes, text}
use kiwi_network_patches.Android.{
  ConnectionType, connection_wifi, connection_4g, connection_5g, connection_3g, connection_ethernet,
  Device,
}

-- The static methods of `NetworkChangeNotifier`, at the one observer of the file.
pub record NotifierOps (N : Type 0) : Type 0 where
  pub add_network_change_observer : N → N
  pub remove_network_change_observer : N → N

module _ {N : Type 0} (notifier : NotifierOps N) where
  unfoldable register : N → N
  register n = notifier.add_network_change_observer n

  unfoldable unregister : N → N
  unregister n = notifier.remove_network_change_observer n

  unfoldable initialize_android_network_integration : N → N
  initialize_android_network_integration n = register n

  unfoldable shutdown_android_network_integration : N → N
  shutdown_android_network_integration n = unregister n

-- `TypeString`.
unfoldable type_string : ConnectionType → Bytes
type_string connection_wifi = text "WIFI"
type_string connection_4g = text "4G"
type_string connection_5g = text "5G"
type_string connection_3g = text "3G"
type_string connection_ethernet = text "ETHERNET"
type_string _ = text "UNKNOWN"

unfoldable current_type_string : {C K : Type 0} → Device C K → Bytes
current_type_string s = type_string s.current_connection

abbrev system_doh_available : Bool
system_doh_available = false

abbrev get_system_dns_servers : List Bytes
get_system_dns_servers = []

abbrev is_battery_saver_active : Bool
is_battery_saver_active = false

-- In seconds.
abbrev get_battery_saver_timeout : ℕ
get_battery_saver_timeout = if is_battery_saver_active then 60 else 30

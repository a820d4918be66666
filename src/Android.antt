-- ===== src/Android.antt =====
-- android_network_config.cc: `AndroidNetworkStateObserver`, with the degradation monitor and the
-- cache of retry configs that it clears.
pub mod Interleaving
pub mod Switching
pub mod Vpn
pub mod Integration
use kiwi_network_patches.Prelude.{ℕ, ◌+◌, Bool, true, false, ◌==◌, if◌then◌else◌}
use kiwi_network_patches.Platform.LruCache.{LruOps}
use kiwi_network_patches.Retry.Cache
use kiwi_network_patches.Retry.Cache.{CacheEntry}
use kiwi_network_patches.Retry.Monitor
use kiwi_network_patches.Retry.Monitor.{Stats}

-- `NetworkChangeNotifier::ConnectionType`: the members that the source names, and the others.
pub data ConnectionType : Type 0 where
  connection_wifi connection_4g connection_5g connection_3g connection_ethernet : ConnectionType
  connection_other : ℕ → ConnectionType

abbrev pub type_code : ConnectionType → ℕ
type_code connection_wifi = 0
type_code connection_4g = 1
type_code connection_5g = 2
type_code connection_3g = 3
type_code connection_ethernet = 4
type_code (connection_other n) = 5 + n

-- The test of `OnNetworkChanged`.
abbrev pub is_tracked : ConnectionType → Bool
is_tracked connection_wifi = true
is_tracked connection_4g = true
is_tracked connection_5g = true
is_tracked _ = false

pub record Device (C K : Type 0) : Type 0 where
  pub current_connection : ConnectionType
  pub monitor : Stats K
  pub cache : C

-- What a notification does to `current_connection_` ahead of the two calls.
unfoldable pub enter_network : {C K : Type 0} → ConnectionType → Device C K → Device C K
enter_network type s =
    if is_tracked type
    then if type_code type == type_code s.current_connection
      then s
      else record s { current_connection = type }
    else s

module _ {C K : Type 0} (ops : LruOps C K CacheEntry) (dec : Discrete K) where
  unfoldable pub on_active_network_changed : ConnectionType → Device C K → Device C K
  on_active_network_changed new_type s =
      if type_code new_type == type_code s.current_connection then s else record {
        current_connection = new_type;
        monitor = Monitor.clear_all dec s.monitor;
        cache = Cache.clear ops s.cache;
      }

  unfoldable pub on_network_changed : ConnectionType → Device C K → Device C K
  on_network_changed type s = if is_tracked type then on_active_network_changed type s else s

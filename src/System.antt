-- ===== src/System.antt =====
-- system_network_context_manager.cc: the defaults of every network context, and the preferences.
-- An `Option` stands for a pointer that may be null. The strings are those of the source.
pub mod Calls
pub mod Preferences
use kiwi_network_patches.Prelude.{ℕ, ◌≡◌, ◌≢◌, Bool, true, false, Option, none, some, List, [], ◌∷◌}
use kiwi_network_patches.Prelude.Bytes.{Bytes, text}
use kiwi_network_patches.Mojo.{NetworkDefaults}

pub record DnsOverHttpsServer : Type 0 where
  pub server_template : Bytes
  pub use_post : Bool

-- The fields of `mojom::NetworkContextParams` that the sources write; `defaults` are those of
-- mojo_ipc_integration.cc. A null `dns_over_https_config` is `none`.
pub record NetworkContextParams : Type 0 where
  pub defaults : NetworkDefaults
  pub dns_over_https_config : Option (List DnsOverHttpsServer)
  pub dns_over_https_fallback : Bool
  pub dns_over_https_attempts : ℕ
  pub enable_alt_svc_cache : Bool
  pub alt_svc_cache_size : ℕ
  pub alt_svc_probe_interval_seconds : ℕ
  pub alt_svc_learn_interval_seconds : ℕ
  pub alt_svc_allow_non_secure : Bool
  pub enable_reporting : Bool
  pub enable_network_error_logging : Bool

-- The servers in the order of the calls of `push_back`.
abbrev pub kiwi_servers : List DnsOverHttpsServer
kiwi_servers =
    record { server_template = text "https://cloudflare-dns.com/dns-query"; use_post = true }
    ∷ record { server_template = text "https://dns.google/dns-query"; use_post = true }
    ∷ record { server_template = text "https://dns.quad9.net/dns-query"; use_post = true }
    ∷ record { server_template = text "https://dns.alidns.com/dns-query"; use_post = true }
    ∷ record { server_template = text "https://doh.pub/dns-query"; use_post = true }
    ∷ []

unfoldable pub add_kiwi_doh_providers : Option NetworkContextParams → Option NetworkContextParams
add_kiwi_doh_providers none = none
add_kiwi_doh_providers (some params) = some (record params {
  dns_over_https_config = some kiwi_servers;
  dns_over_https_fallback = true;
  dns_over_https_attempts = 3;
})

unfoldable pub configure_http3_preference :
    Option NetworkContextParams → Option NetworkContextParams
configure_http3_preference none = none
configure_http3_preference (some params) = some (record params {
  enable_alt_svc_cache = true;
  alt_svc_cache_size = 5000;
  alt_svc_probe_interval_seconds = 10;
  alt_svc_learn_interval_seconds = 300;
  alt_svc_allow_non_secure = false;
})

unfoldable pub configure_network_error_reporting :
    Option NetworkContextParams → Option NetworkContextParams
configure_network_error_reporting none = none
configure_network_error_reporting (some params) =
    some (record params { enable_reporting = true; enable_network_error_logging = true })

-- The preferences that the source names.
pub data PrefName : Type 0 where
  dns_over_https_mode certificate_transparency_enabled : PrefName

pub data PrefValue : Type 0 where
  string_value : Bytes → PrefValue
  bool_value : Bool → PrefValue

-- Chromium's `PrefService`: `P` is the type of its states.
pub record PrefOps (P : Type 0) : Type 0 where
  pub set_default_pref_value : PrefName → PrefValue → P → P
  pub get_default_pref_value : PrefName → P → Option PrefValue

-- A default is what was last set for its name, and setting another leaves it.
pub record IsPrefs {P : Type 0} (ops : PrefOps P) : Type 0 where
  pub get-set :
      (n : PrefName) (v : PrefValue) (p : P)
      → ops.get_default_pref_value n (ops.set_default_pref_value n v p) ≡ some v
  pub get-set_ne :
      (n m : PrefName) (v : PrefValue) (p : P)
      → m ≢ n
      → ops.get_default_pref_value m (ops.set_default_pref_value n v p)
        ≡ ops.get_default_pref_value m p

unfoldable pub configure_kiwi_network_features : {P : Type 0} → PrefOps P → Option P → Option P
configure_kiwi_network_features ops none = none
configure_kiwi_network_features ops (some local_state) =
    let mode =
      ops.set_default_pref_value dns_over_https_mode (string_value (text "automatic"))
        local_state in
    some (ops.set_default_pref_value certificate_transparency_enabled (bool_value true) mode)

-- ===== src/Network.antt =====
-- The shared state of the network stack, and every call of the sources that changes it, in any
-- order: host_resolver_manager.cc, ech_retry_handler.cc, quic_ech_integration.cc,
-- android_network_config.cc and proxy_tls_interception.cc work on the same singletons. A call is one
-- step: the cache and the monitor lock themselves in each method. A switch of the network works on
-- both, so it is a step as a whole, and besides its parts are steps, between which others may come:
-- the new type, `ClearAll` and `Clear`. Times are in the labels, and need not grow.
pub mod Origins
pub mod Invariant
pub mod Steps
pub mod Abstract
pub mod Reached
pub mod Perform
pub mod Determined
pub mod Objects
use kiwi_network_patches.Prelude.{ℕ, ◌≡◌, Bool, false, Option, some, List, [], ◌∷◌, All}
use kiwi_network_patches.Prelude.Bytes.{Bytes, AreBytes}
use kiwi_network_patches.Platform.Features.{FeatureList}
use kiwi_network_patches.Platform.Bytestring.{Cbs}
use kiwi_network_patches.Platform.DnsProtocol.{DnsProtocol}
use kiwi_network_patches.Platform.ResolveContext.{ContextOps}
use kiwi_network_patches.Platform.Float.{FloatOps}
use kiwi_network_patches.Platform.LruCache.{LruOps}
use kiwi_network_patches.Platform.BoringSsl.{Trace, SslEnv}
use kiwi_network_patches.Dns.Process.{process_https_record}
use kiwi_network_patches.Retry.Cache
use kiwi_network_patches.Retry.Cache.{CacheEntry, handle_ech_retry}
use kiwi_network_patches.Retry.Monitor
use kiwi_network_patches.Retry.Monitor.{no_stats, record_result}
use kiwi_network_patches.Quic.{can_use_0rtt_with_ech, on_quic_connection_migration_with_ech}
use kiwi_network_patches.Android.{ConnectionType, Device, enter_network, on_network_changed}
use kiwi_network_patches.Android.Vpn.{quic_success_rate_over_vpn, record_quic_result_over_vpn}
use kiwi_network_patches.Tls.Config.{SslConfig}
use kiwi_network_patches.Proxy.{
  Evidence, is_connection_intercepted, check_pac_script, ProxyInfo, adjust_for_proxy_environment,
}

-- `X` is the type of resolve contexts, `C` that of caches, `N` that of network anonymization keys,
-- `K` that of hosts with their ports and `W` that of floats.
pub record Network (X C K W : Type 0) : Type 0 where
  pub context : X
  pub device : Device C K
  pub suspicion_score : ℕ
  pub needs_doh_fallback : Bool
  pub vpn_quic_rate : W

-- What the environment puts into a step.
pub data Label (N K : Type 0) : Type 0 where
  resolved : N → List Bytes → Label N K
  retried : ℕ → K → Option Bytes → Label N K
  reported : K → Bool → Label N K
  looked_up : ℕ → K → Bytes → Label N K
  dropped : K → Label N K
  migrated : K → Label N K
  all_reset all_dropped : Label N K
  moved switched : ConnectionType → Label N K
  observed : Evidence → Label N K
  adjusted : ProxyInfo → Label N K
  scripted : Bytes → Label N K
  vpn_reported : Bool → Label N K

module _ {X C N K W : Type 0} (features : FeatureList) (cbs : Cbs) (d : DnsProtocol)
    (contexts : ContextOps X N) (caches : LruOps C K CacheEntry) (floats : FloatOps W)
    (dec : Discrete K) where
  pub data Step (s : Network X C K W) : Label N K → Network X C K W → Type 0 where
    resolve :
        (nik : N) (records : List Bytes) {c : X}
        → All AreBytes records
        → process_https_record features cbs d contexts nik (some records) s.context ≡ some c
        → Step s (resolved nik records) (record s { context = c })
    retry :
        (now : ℕ) (host : K) (config : Option Bytes) (env : SslEnv) (t : Trace)
        → env.retry_configs t ≡ config
        → Step s (retried now host config) (record s {
          device = record s.device {
            cache = (handle_ech_retry caches features env now host s.device.cache t).1;
          };
        })
    report :
        (host : K) (success : Bool)
        → Step s (reported host success) (record s {
          device = record s.device { monitor = record_result dec host success s.device.monitor };
        })
    look_up :
        (now : ℕ) (host : K) (config : Bytes)
        → Step s (looked_up now host config) (record s {
          device = record s.device {
            cache = (can_use_0rtt_with_ech caches now host config s.device.cache).1;
          };
        })
    drop_config :
        (host : K)
        → Step s (dropped host) (record s {
          device = record s.device { cache = Cache.invalidate caches host s.device.cache };
        })
    migrate :
        (host : K)
        → Step s (migrated host) (record s {
          device = record s.device {
            monitor = on_quic_connection_migration_with_ech dec host s.device.monitor;
          };
        })
    clear_monitor :
        Step s all_reset (record s {
          device = record s.device { monitor = Monitor.clear_all dec s.device.monitor };
        })
    clear_cache :
        Step s all_dropped
          (record s { device = record s.device { cache = Cache.clear caches s.device.cache } })
    move :
        (type : ConnectionType)
        → Step s (moved type) (record s { device = enter_network type s.device })
    switch :
        (type : ConnectionType)
        → Step s (switched type) (record s { device = on_network_changed caches dec type s.device })
    observe :
        (e : Evidence)
        → Step s
            (observed e)
            (record s { suspicion_score = (is_connection_intercepted e s.suspicion_score).1 })
    adjust :
        (proxy_info : ProxyInfo) (config : SslConfig)
        → Step s (adjusted proxy_info) (record s {
          suspicion_score = (adjust_for_proxy_environment proxy_info config s.suspicion_score).1;
        })
    check_script :
        (pac_script : Bytes)
        → Step s
            (scripted pac_script)
            (record s { needs_doh_fallback = check_pac_script pac_script s.needs_doh_fallback })
    report_vpn :
        (success : Bool)
        → Step s (vpn_reported success) (record s {
          vpn_quic_rate = record_quic_result_over_vpn floats success s.vpn_quic_rate;
        })

  -- The state at the start of the process, with what the observer reads as the network.
  abbrev pub start : X → ConnectionType → Network X C K W
  start context type = record {
    context = context;
    device = record { current_connection = type; monitor = no_stats; cache = caches.empty };
    suspicion_score = 0;
    needs_doh_fallback = false;
    vpn_quic_rate = quic_success_rate_over_vpn floats;
  }

  -- The states that steps lead to, with the labels of the steps, newest first.
  pub data Reach (s : Network X C K W) : List (Label N K) → Network X C K W → Type 0 where
    here : Reach s [] s
    next :
        {labels : List (Label N K)} {l : Label N K} {t u : Network X C K W}
        → Reach s labels t
        → Step t l u
        → Reach s (l ∷ labels) u

-- ===== src/Network/Perform.antt =====
-- An executable account of what each call does to the shared state, by its label alone.
use kiwi_network_patches.Prelude.{
  ℕ, ◌≡◌, refl, ap, ◌&&◌, not, Option, none, some, get_or, List, [], ◌∷◌, All, arith, if◌then◌else◌,
}
use kiwi_network_patches.Prelude.Bytes.{Bytes, AreBytes, is_empty}
use kiwi_network_patches.Platform.Features.{FeatureList, encrypted_client_hello}
use kiwi_network_patches.Platform.Bytestring.{Cbs}
use kiwi_network_patches.Platform.DnsProtocol.{DnsProtocol}
use kiwi_network_patches.Platform.ResolveContext.{ContextOps}
use kiwi_network_patches.Platform.Float.{FloatOps}
use kiwi_network_patches.Platform.LruCache.{LruOps}
use kiwi_network_patches.Platform.BoringSsl.{Trace, SslEnv}
use kiwi_network_patches.Dns.Process.{process_https_record}
use kiwi_network_patches.Retry.Cache
use kiwi_network_patches.Retry.Cache.{CacheEntry, max_entries, handle_ech_retry}
use kiwi_network_patches.Retry.Monitor
use kiwi_network_patches.Retry.Monitor.{record_result}
use kiwi_network_patches.Quic.{can_use_0rtt_with_ech, on_quic_connection_migration_with_ech}
use kiwi_network_patches.Android.{enter_network, on_network_changed}
use kiwi_network_patches.Android.Vpn.{record_quic_result_over_vpn}
use kiwi_network_patches.Proxy.{is_connection_intercepted, check_pac_script}
use kiwi_network_patches.Proxy.Interception.{adjust_for_proxy_environment-config}
use kiwi_network_patches.Network.{
  Network, Label, resolved, retried, reported, looked_up, dropped, migrated, all_reset, all_dropped,
  moved, switched, observed, adjusted, scripted, vpn_reported, Step, resolve, retry, report,
  look_up, drop_config, migrate, clear_monitor, clear_cache, move, switch, observe, adjust,
  check_script, report_vpn,
}

-- What a failed handshake leaves in the cache, by what the server sent.
abbrev pub kept :
    {C K : Type 0} → LruOps C K CacheEntry → FeatureList → ℕ → K → Option Bytes → C → C
kept caches features now host none c = c
kept caches features now host (some config) c =
    if features encrypted_client_hello && not (is_empty config)
    then Cache.store caches now host config c
    else c

handle_ech_retry-kept :
    {C K : Type 0} (caches : LruOps C K CacheEntry) (features : FeatureList) (env : SslEnv)
    (now : ℕ) (host : K) (config : Option Bytes) (c : C) (t : Trace)
    → env.retry_configs t ≡ config
    → (handle_ech_retry caches features env now host c t).1 ≡ kept caches features now host config c
unfolding handle_ech_retry
handle_ech_retry-kept caches features env now host none c t h = ground arith
handle_ech_retry-kept caches features env now host (some config) c t h = ground arith

-- The records that a call brings in are bytes.
abbrev pub BytesOf : {N K : Type 0} → Label N K → Type 0
BytesOf (resolved nik records) = All AreBytes records
BytesOf _ = Unit

module _ {X C N K W : Type 0} (features : FeatureList) (cbs : Cbs) (d : DnsProtocol)
    (contexts : ContextOps X N) (caches : LruOps C K CacheEntry) (floats : FloatOps W)
    (dec : Discrete K) where
  abbrev with_cache : C → Network X C K W → Network X C K W
  with_cache c s = record s { device = record s.device { cache = c } }

  -- The state behind a call.
  abbrev pub perform : Label N K → Network X C K W → Network X C K W
  perform (resolved nik records) s = record s {
    context =
        get_or (process_https_record features cbs d contexts nik (some records) s.context)
          s.context;
  }
  perform (retried now host config) s =
      with_cache (kept caches features now host config s.device.cache) s
  perform (reported host success) s = record s {
    device = record s.device { monitor = record_result dec host success s.device.monitor };
  }
  perform (looked_up now host current) s =
      with_cache (can_use_0rtt_with_ech caches now host current s.device.cache).1 s
  perform (dropped host) s = with_cache (Cache.invalidate caches host s.device.cache) s
  perform (migrated host) s = record s {
    device = record s.device {
      monitor = on_quic_connection_migration_with_ech dec host s.device.monitor;
    };
  }
  perform all_reset s = record s {
    device = record s.device { monitor = Monitor.clear_all dec s.device.monitor };
  }
  perform all_dropped s = with_cache (Cache.clear caches s.device.cache) s
  perform (moved type) s = record s { device = enter_network type s.device }
  perform (switched type) s = record s { device = on_network_changed caches dec type s.device }
  perform (observed e) s = record s {
    suspicion_score = (is_connection_intercepted e s.suspicion_score).1;
  }
  perform (adjusted proxy_info) s = record s { suspicion_score = 0 }
  perform (scripted pac_script) s = record s {
    needs_doh_fallback = check_pac_script pac_script s.needs_doh_fallback;
  }
  perform (vpn_reported success) s = record s {
    vpn_quic_rate = record_quic_result_over_vpn floats success s.vpn_quic_rate;
  }

  -- The calls in order, newest first.
  abbrev pub perform_all : List (Label N K) → Network X C K W → Network X C K W
  perform_all [] s = s
  perform_all (l ∷ older) s = perform l (perform_all older s)

  abbrev Steps : Network X C K W → Label N K → Network X C K W → Type 0
  Steps = Step features cbs d contexts caches floats dec

  pub Step-perform : {s u : Network X C K W} {l : Label N K} → Steps s l u → u ≡ perform l s
  Step-perform {s} (resolve nik records bytes run) = rw run refl
  Step-perform {s} (retry now host config env t server) =
      ap (λ c. with_cache c s)
        (handle_ech_retry-kept caches features env now host config s.device.cache t server)
  Step-perform (report host success) = refl
  Step-perform (look_up now host current) = refl
  Step-perform (drop_config host) = refl
  Step-perform (migrate host) = refl
  Step-perform clear_monitor = refl
  Step-perform clear_cache = refl
  Step-perform (move type) = refl
  Step-perform (switch type) = refl
  Step-perform (observe e) = refl
  Step-perform {s} (adjust proxy_info config) =
      ap (λ r. record s { suspicion_score = r.1 })
        (adjust_for_proxy_environment-config proxy_info config s.suspicion_score)
  Step-perform (check_script pac_script) = refl
  Step-perform (report_vpn success) = refl

  pub Step-BytesOf : {s u : Network X C K W} {l : Label N K} → Steps s l u → BytesOf l
  Step-BytesOf (resolve nik records bytes run) = bytes
  Step-BytesOf (retry now host config env t server) = tt
  Step-BytesOf (report host success) = tt
  Step-BytesOf (look_up now host current) = tt
  Step-BytesOf (drop_config host) = tt
  Step-BytesOf (migrate host) = tt
  Step-BytesOf clear_monitor = tt
  Step-BytesOf clear_cache = tt
  Step-BytesOf (move type) = tt
  Step-BytesOf (switch type) = tt
  Step-BytesOf (observe e) = tt
  Step-BytesOf (adjust proxy_info config) = tt
  Step-BytesOf (check_script pac_script) = tt
  Step-BytesOf (report_vpn success) = tt

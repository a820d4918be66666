-- ===== src/Network/Abstract/Calls.antt =====
-- The cache of retry configs, step by step, against the calls of its methods that the labels mean.
use kiwi_network_patches.Prelude.{
  ℕ, ◌≡◌, refl, sym, ap, ◌∙◌, inl, inr, true, Option, none, some, List, [], ◌∷◌, ◌++◌, Bool-cases,
  arith, if◌then◌else◌,
}
use kiwi_network_patches.Prelude.Bytes.{Bytes, is_empty}
use kiwi_network_patches.Platform.Features.{FeatureList, encrypted_client_hello}
use kiwi_network_patches.Platform.Bytestring.{Cbs}
use kiwi_network_patches.Platform.DnsProtocol.{DnsProtocol}
use kiwi_network_patches.Platform.ResolveContext.{ContextOps}
use kiwi_network_patches.Platform.Float.{FloatOps}
use kiwi_network_patches.Platform.LruCache.{LruOps}
use kiwi_network_patches.Platform.BoringSsl.{Trace, SslEnv}
use kiwi_network_patches.Retry.Cache.{CacheEntry, handle_ech_retry}
use kiwi_network_patches.Retry.Cache.Entries
use kiwi_network_patches.Retry.Cache.Entries.{Op, op_store, op_get, op_invalidate, op_clear}
use kiwi_network_patches.Retry.Cache.Handler.{handle_ech_retry-fallback}
use kiwi_network_patches.Quic.{can_use_0rtt_with_ech}
use kiwi_network_patches.Android.{ConnectionType, Device, on_network_changed}
use kiwi_network_patches.Network.{
  Network, Label, Step, resolve, retry, report, look_up, drop_config, migrate, clear_monitor,
  clear_cache, move, switch, observe, adjust, check_script, report_vpn,
}
use kiwi_network_patches.Network.Origins.{cache-enter_network}
use kiwi_network_patches.Network.Abstract.{changes, connection, cache_calls}
use kiwi_network_patches.Network.Abstract.Steps.{on_network_changed-changes}
use kiwi_network_patches.Network.Abstract.Sent.{handle_ech_retry-store}

module _ {C K : Type 0} (caches : LruOps C K CacheEntry) where
  run-append :
      (calls : List (Op K)) (o : Op K) (c : C)
      → Entries.run caches (calls ++ (o ∷ [])) c
        ≡ Entries.step caches o (Entries.run caches calls c)
  run-append [] o c = refl
  run-append (x ∷ calls) o c = run-append calls o (Entries.step caches x c)

  -- One more call at the end.
  last_call :
      (calls : List (Op K)) (o : Op K) (c : C) {b : C}
      → b ≡ Entries.run caches calls c
      → Entries.step caches o b ≡ Entries.run caches (calls ++ (o ∷ [])) c
  last_call calls o c h = ap (Entries.step caches o) h ∙ sym (run-append calls o c)

  -- `CanUse0RttWithECH` reads the cache, unless it has no configuration.
  can_use_0rtt-call :
      (now : ℕ) (host : K) (current : Bytes) (c : C)
      → (can_use_0rtt_with_ech caches now host current c).1
        ≡ (if is_empty current then c else Entries.step caches (op_get now host) c)
  unfolding can_use_0rtt_with_ech
  can_use_0rtt-call now host current c = ground arith

module _ {X C N K W : Type 0} (features : FeatureList) (cbs : Cbs) (d : DnsProtocol)
    (contexts : ContextOps X N) (caches : LruOps C K CacheEntry) (floats : FloatOps W)
    (dec : Discrete K) (on : features encrypted_client_hello ≡ true) (at_first : ConnectionType)
    (labels : List (Label N K)) where
  -- The cache of a new process behind the calls.
  abbrev Behind : List (Op K) → C → Type 0
  Behind calls c = c ≡ Entries.run caches calls caches.empty

  Behind-retry :
      (env : SslEnv) (now : ℕ) (host : K) (config : Option Bytes) (calls : List (Op K)) (c : C)
      (t : Trace)
      → env.retry_configs t ≡ config
      → Behind calls c
      → Behind
          (elim config [
            | none ↦ calls
            | some config' ↦
                if is_empty config' then calls else calls ++ (op_store now host config' ∷ [])
          ])
          (handle_ech_retry caches features env now host c t).1
  Behind-retry env now host none calls c t server h =
      (handle_ech_retry-fallback caches features env now host c t (inl server)).1 ∙ h
  Behind-retry env now host (some []) calls c t server h =
      (handle_ech_retry-fallback caches features env now host c t (inr server)).1 ∙ h
  Behind-retry env now host (some (b ∷ config)) calls c t server h =
      handle_ech_retry-store caches features on env now host c t (b ∷ config) server refl
      ∙ last_call caches calls (op_store now host (b ∷ config)) caches.empty h

  Behind-look_up :
      (now : ℕ) (host : K) (current : Bytes) (calls : List (Op K)) (c : C)
      → Behind calls c
      → Behind
          (if is_empty current then calls else calls ++ (op_get now host ∷ []))
          (can_use_0rtt_with_ech caches now host current c).1
  Behind-look_up now host current calls c h = elim (Bool-cases (is_empty current)) [
    | inl e ↦ can_use_0rtt-call caches now host current c ∙ rw e h
    | inr e ↦
        can_use_0rtt-call caches now host current c
        ∙ rw e (last_call caches calls (op_get now host) caches.empty h)
  ]

  Behind-switch :
      (type : ConnectionType) (calls : List (Op K)) (s : Device C K)
      → s.current_connection ≡ connection at_first labels
      → Behind calls s.cache
      → Behind
          (if changes type (connection at_first labels) then calls ++ (op_clear ∷ []) else calls)
          (on_network_changed caches dec type s).cache
  Behind-switch type calls s at h = elim (Bool-cases (changes type (connection at_first labels))) [
    | inl e ↦
        rw (on_network_changed-changes caches dec type s, at, e)
          (last_call caches calls op_clear caches.empty h)
    | inr e ↦ rw (on_network_changed-changes caches dec type s, at, e) h
  ]

  pub Step-cache :
      {s u : Network X C K W} {l : Label N K}
      → Step features cbs d contexts caches floats dec s l u
      → s.device.current_connection ≡ connection at_first labels
      → Behind (cache_calls at_first labels) s.device.cache
      → Behind (cache_calls at_first (l ∷ labels)) u.device.cache
  Step-cache (resolve nik records bytes run) at h = h
  Step-cache {s} (retry now host none env t server) at h =
      Behind-retry env now host none (cache_calls at_first labels) s.device.cache t server h
  Step-cache {s} (retry now host (some config) env t server) at h =
      Behind-retry env now host (some config) (cache_calls at_first labels) s.device.cache t server
        h
  Step-cache (report host success) at h = h
  Step-cache {s} (look_up now host current) at h =
      Behind-look_up now host current (cache_calls at_first labels) s.device.cache h
  Step-cache (drop_config host) at h =
      last_call caches (cache_calls at_first labels) (op_invalidate host) caches.empty h
  Step-cache (migrate host) at h = h
  Step-cache clear_monitor at h = h
  Step-cache clear_cache at h =
      last_call caches (cache_calls at_first labels) op_clear caches.empty h
  Step-cache {s} (move type) at h = cache-enter_network type s.device ∙ h
  Step-cache {s} (switch type) at h = Behind-switch type (cache_calls at_first labels) s.device at h
  Step-cache (observe e) at h = h
  Step-cache (adjust proxy_info config) at h = h
  Step-cache (check_script pac_script) at h = h
  Step-cache (report_vpn success) at h = h

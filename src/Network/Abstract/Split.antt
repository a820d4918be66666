-- ===== src/Network/Abstract/Split.antt =====
-- A switch of the network as the three calls that it consists of.
use kiwi_network_patches.Prelude.{
  ◌≡◌, arith, refl, sym, subst, ap, if_keeps, ◌∙◌, inl, inr, true, false, List, [], ◌∷◌, All,
  Bool-cases, if◌then◌else◌,
}
use kiwi_network_patches.Platform.Features.{FeatureList}
use kiwi_network_patches.Platform.Bytestring.{Cbs}
use kiwi_network_patches.Platform.DnsProtocol.{DnsProtocol}
use kiwi_network_patches.Platform.ResolveContext.{ContextOps}
use kiwi_network_patches.Platform.Float.{FloatOps}
use kiwi_network_patches.Platform.LruCache.{LruOps}
use kiwi_network_patches.Retry.Cache
use kiwi_network_patches.Retry.Cache.{CacheEntry}
use kiwi_network_patches.Retry.Monitor.{clear_all}
use kiwi_network_patches.Android.{ConnectionType, Device, enter_network, on_network_changed}
use kiwi_network_patches.Network.{
  Network, Label, all_reset, all_dropped, moved, switched, Step, resolve, retry, report, look_up,
  drop_config, migrate, clear_monitor, clear_cache, move, switch, observe, adjust, check_script,
  report_vpn, start, Reach, here, next,
}
use kiwi_network_patches.Network.Objects.{NoSwitch}
use kiwi_network_patches.Network.Abstract.{changes, connection}
use kiwi_network_patches.Network.Abstract.Steps.{Step-connection, on_network_changed-changes}

enter_network-new :
    {C K : Type 0} (type : ConnectionType) (s : Device C K)
    → changes type s.current_connection ≡ true
    → enter_network type s ≡ record s { current_connection = type }
unfolding enter_network
enter_network-new type s h = ground arith

module _ {N K : Type 0} where
  -- The calls with each switch taken apart, newest first: the new type, then `ClearAll`, then `Clear`,
  -- or nothing at all if the network stays.
  abbrev pub split : ConnectionType → List (Label N K) → List (Label N K)
  split at_first [] = []
  split at_first (switched type ∷ older) =
      let before = split at_first older in
      if changes type (connection at_first older)
      then all_dropped ∷ all_reset ∷ moved type ∷ before
      else before
  split at_first (l ∷ older) = l ∷ split at_first older

  NoSwitch-switch :
      (at_first : ConnectionType) (type : ConnectionType) (older : List (Label N K))
      → All NoSwitch (split at_first older)
      → All NoSwitch (split at_first (switched type ∷ older))
  NoSwitch-switch at_first type older h =
      if_keeps (All NoSwitch) (changes type (connection at_first older)) (tt, (tt, (tt, h))) h

module _ {X C N K W : Type 0} (features : FeatureList) (cbs : Cbs) (d : DnsProtocol)
    (contexts : ContextOps X N) (caches : LruOps C K CacheEntry) (floats : FloatOps W)
    (dec : Discrete K) (at_first : ConnectionType) (context : X) where
  abbrev Reached : List (Label N K) → Network X C K W → Type 0
  Reached =
      Reach features cbs d contexts caches floats dec
        (start features cbs d contexts caches floats dec context at_first)

  Reach-connection :
      {u : Network X C K W} {labels : List (Label N K)}
      → Reached labels u
      → u.device.current_connection ≡ connection at_first labels
  Reach-connection here = refl
  Reach-connection (next {labels} before step) =
      Step-connection features cbs d contexts caches floats dec at_first labels step
        (Reach-connection before)

  -- The three calls of a switch, each on what the one before left.
  abbrev three_calls : ConnectionType → Network X C K W → Network X C K W
  three_calls type s =
      let moved_on = enter_network type s.device in
      record s {
        device = record moved_on {
          monitor = clear_all dec moved_on.monitor;
          cache = Cache.clear caches moved_on.cache;
        };
      }

  Reached-three_calls :
      {u : Network X C K W} {labels : List (Label N K)} (type : ConnectionType)
      → Reached labels u
      → Reached (all_dropped ∷ all_reset ∷ moved type ∷ labels) (three_calls type u)
  Reached-three_calls type h = next (next (next h (move type)) clear_monitor) clear_cache

  three_calls-switch :
      (type : ConnectionType) (s : Network X C K W)
      → changes type s.device.current_connection ≡ true
      → three_calls type s ≡ record s { device = on_network_changed caches dec type s.device }
  three_calls-switch type s h =
      rw (enter_network-new type s.device h, on_network_changed-changes caches dec type s.device, h)
        refl

  same-switch :
      (type : ConnectionType) (s : Network X C K W)
      → changes type s.device.current_connection ≡ false
      → s ≡ record s { device = on_network_changed caches dec type s.device }
  same-switch type s h = rw (on_network_changed-changes caches dec type s.device, h) refl

  Reached-switch :
      (labels : List (Label N K)) {s : Network X C K W} (type : ConnectionType)
      → s.device.current_connection ≡ connection at_first labels
      → Reached (split at_first labels) s
      → Reached
          (split at_first (switched type ∷ labels))
          (record s { device = on_network_changed caches dec type s.device })
  Reached-switch labels {s} type at h =
      elim (Bool-cases (changes type s.device.current_connection)) [
        | inl e ↦
            rw (ap (changes type) (sym at) ∙ e)
              (subst (Reached _) (three_calls-switch type s e) (Reached-three_calls type h))
        | inr e ↦ rw (ap (changes type) (sym at) ∙ e) (subst (Reached _) (same-switch type s e) h)
      ]

  -- One more call, which is no switch.
  carry :
      {labels : List (Label N K)} {l : Label N K} {t u : Network X C K W}
      → NoSwitch l
      → Step features cbs d contexts caches floats dec t l u
      → Reached labels t × All NoSwitch labels
      → Reached (l ∷ labels) u × All NoSwitch (l ∷ labels)
  carry ok step (h, all) = (next h step, (ok, all))

  -- Every state that the calls of the sources lead to, in any order, from a new process is one that
  -- calls lead to of which none is a whole switch of the network: in place of each switch to another
  -- network, of those that the observer heeds, stand the three calls that set the type, clear the
  -- statistics and clear the cache, and in place of any other notification nothing.
  pub Reach-split :
      {u : Network X C K W} {labels : List (Label N K)}
      → Reached labels u
      → Reached (split at_first labels) u × All NoSwitch (split at_first labels)
  Reach-split here = (here, tt)
  Reach-split (next before (resolve nik records bytes run)) =
      carry tt (resolve nik records bytes run) (Reach-split before)
  Reach-split (next before (retry now host config env t server)) =
      carry tt (retry now host config env t server) (Reach-split before)
  Reach-split (next before (report host success)) =
      carry tt (report host success) (Reach-split before)
  Reach-split (next before (look_up now host current)) =
      carry tt (look_up now host current) (Reach-split before)
  Reach-split (next before (drop_config host)) = carry tt (drop_config host) (Reach-split before)
  Reach-split (next before (migrate host)) = carry tt (migrate host) (Reach-split before)
  Reach-split (next before clear_monitor) = carry tt clear_monitor (Reach-split before)
  Reach-split (next before clear_cache) = carry tt clear_cache (Reach-split before)
  Reach-split (next before (move type)) = carry tt (move type) (Reach-split before)
  Reach-split (next {labels} before (switch type)) =
      let (h, all) = Reach-split before in
      (
        Reached-switch labels type (Reach-connection before) h,
        NoSwitch-switch at_first type labels all,
      )
  Reach-split (next before (observe e)) = carry tt (observe e) (Reach-split before)
  Reach-split (next before (adjust proxy_info config)) =
      carry tt (adjust proxy_info config) (Reach-split before)
  Reach-split (next before (check_script pac_script)) =
      carry tt (check_script pac_script) (Reach-split before)
  Reach-split (next before (report_vpn success)) =
      carry tt (report_vpn success) (Reach-split before)

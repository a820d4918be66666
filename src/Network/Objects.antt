-- ===== src/Network/Objects.antt =====
-- The objects of the shared state, each with the calls that work on it: calls on different objects do
-- not meet, so that of a run only the order of the calls on each object counts.
use kiwi_network_patches.Prelude.{
  ℕ, ◌≡◌, sym, refl, ap, ◌∙◌, Bool, some, get_or, List, [], ◌∷◌, All, arith, ◌==◌, if◌then◌else◌,
}
use kiwi_network_patches.Platform.Features.{FeatureList}
use kiwi_network_patches.Platform.Bytestring.{Cbs}
use kiwi_network_patches.Platform.DnsProtocol.{DnsProtocol}
use kiwi_network_patches.Platform.ResolveContext.{ContextOps}
use kiwi_network_patches.Platform.Float.{FloatOps}
use kiwi_network_patches.Platform.LruCache.{LruOps}
use kiwi_network_patches.Dns.Process.{process_https_record}
use kiwi_network_patches.Retry.Cache
use kiwi_network_patches.Retry.Cache.{CacheEntry}
use kiwi_network_patches.Retry.Monitor
use kiwi_network_patches.Retry.Monitor.{Stats, record_result}
use kiwi_network_patches.Quic.{can_use_0rtt_with_ech, on_quic_connection_migration_with_ech}
use kiwi_network_patches.Android.{ConnectionType, Device, enter_network}
use kiwi_network_patches.Android.Vpn.{record_quic_result_over_vpn}
use kiwi_network_patches.Proxy.{is_connection_intercepted, check_pac_script}
use kiwi_network_patches.Network.{
  Network, Label, resolved, retried, reported, looked_up, dropped, migrated, all_reset, all_dropped,
  moved, switched, observed, adjusted, scripted, vpn_reported,
}
use kiwi_network_patches.Network.Abstract.{changes}
use kiwi_network_patches.Network.Perform.{kept, perform, perform_all}

pub data Object : Type 0 where
  the_context the_connection the_monitor the_cache the_score the_flag the_rate : Object

abbrev code : Object → ℕ
code the_context = 0
code the_connection = 1
code the_monitor = 2
code the_cache = 3
code the_score = 4
code the_flag = 5
code the_rate = 6

-- A call that is no switch as a whole.
abbrev pub NoSwitch : {N K : Type 0} → Label N K → Type 0
NoSwitch (switched type) = ⊥
NoSwitch _ = Unit

module _ {N K : Type 0} where
  -- The object that a call works on; a whole switch works on three, of which this is the first.
  abbrev pub object_of : Label N K → Object
  object_of (resolved nik records) = the_context
  object_of (retried now host config) = the_cache
  object_of (reported host success) = the_monitor
  object_of (looked_up now host current) = the_cache
  object_of (dropped host) = the_cache
  object_of (migrated host) = the_monitor
  object_of all_reset = the_monitor
  object_of all_dropped = the_cache
  object_of (moved type) = the_connection
  object_of (switched type) = the_connection
  object_of (observed e) = the_score
  object_of (adjusted proxy_info) = the_score
  object_of (scripted pac_script) = the_flag
  object_of (vpn_reported success) = the_rate

  -- The calls on one object, in their order.
  abbrev pub part : Object → List (Label N K) → List (Label N K)
  part o [] = []
  part o (l ∷ older) =
      let rest = part o older in if code o == code (object_of l) then l ∷ rest else rest

  -- Two runs with the same calls on each object, in the same order there.
  abbrev pub Agree : List (Label N K) → List (Label N K) → Type 0
  Agree labels labels' = (o : Object) → part o labels ≡ part o labels'

  -- What the calls do to one object, newest first.
  abbrev after : {A : Type 0} → (Label N K → A → A) → List (Label N K) → A → A
  after act [] x = x
  after act (l ∷ older) x = act l (after act older x)

module _ {X C N K W : Type 0} (features : FeatureList) (cbs : Cbs) (d : DnsProtocol)
    (contexts : ContextOps X N) (caches : LruOps C K CacheEntry) (floats : FloatOps W)
    (dec : Discrete K) where
  -- What a call does to each object.
  abbrev on_context : Label N K → X → X
  on_context (resolved nik records) c =
      get_or (process_https_record features cbs d contexts nik (some records) c) c
  on_context _ c = c

  abbrev on_connection : Label N K → ConnectionType → ConnectionType
  on_connection (moved type) current = if changes type current then type else current
  on_connection _ current = current

  abbrev on_monitor : Label N K → Stats K → Stats K
  on_monitor (reported host success) m = record_result dec host success m
  on_monitor (migrated host) m = on_quic_connection_migration_with_ech dec host m
  on_monitor all_reset m = Monitor.clear_all dec m
  on_monitor _ m = m

  abbrev on_cache : Label N K → C → C
  on_cache (retried now host config) c = kept caches features now host config c
  on_cache (looked_up now host current) c = (can_use_0rtt_with_ech caches now host current c).1
  on_cache (dropped host) c = Cache.invalidate caches host c
  on_cache all_dropped c = Cache.clear caches c
  on_cache _ c = c

  abbrev on_score : Label N K → ℕ → ℕ
  on_score (observed e) score = (is_connection_intercepted e score).1
  on_score (adjusted proxy_info) score = 0
  on_score _ score = score

  abbrev on_flag : Label N K → Bool → Bool
  on_flag (scripted pac_script) flag = check_pac_script pac_script flag
  on_flag _ flag = flag

  abbrev on_rate : Label N K → W → W
  on_rate (vpn_reported success) rate = record_quic_result_over_vpn floats success rate
  on_rate _ rate = rate

  -- The state put together from what the calls on each object leave of it.
  abbrev assembled : List (Label N K) → Network X C K W → Network X C K W
  assembled labels s = record {
    context = after on_context (part the_context labels) s.context;
    device = record {
      current_connection =
          after on_connection (part the_connection labels) s.device.current_connection;
      monitor = after on_monitor (part the_monitor labels) s.device.monitor;
      cache = after on_cache (part the_cache labels) s.device.cache;
    };
    suspicion_score = after on_score (part the_score labels) s.suspicion_score;
    needs_doh_fallback = after on_flag (part the_flag labels) s.needs_doh_fallback;
    vpn_quic_rate = after on_rate (part the_rate labels) s.vpn_quic_rate;
  }

  enter_network-on_connection :
      (type : ConnectionType) (s : Device C K)
      → enter_network type s
        ≡ record s { current_connection = on_connection (moved type) s.current_connection }
  unfolding enter_network
  enter_network-on_connection type s = ground arith

  then_perform :
      (l : Label N K) (older : List (Label N K)) (s : Network X C K W)
      → NoSwitch l
      → perform features cbs d contexts caches floats dec l (assembled older s)
        ≡ assembled (l ∷ older) s
  then_perform (resolved nik records) older s ok = refl
  then_perform (retried now host config) older s ok = refl
  then_perform (reported host success) older s ok = refl
  then_perform (looked_up now host current) older s ok = refl
  then_perform (dropped host) older s ok = refl
  then_perform (migrated host) older s ok = refl
  then_perform all_reset older s ok = refl
  then_perform all_dropped older s ok = refl
  then_perform (moved type) older s ok =
      ap (λ v. record (assembled older s) { device = v })
        (enter_network-on_connection type (assembled older s).device)
  then_perform (switched type) older s ok = absurd ok
  then_perform (observed e) older s ok = refl
  then_perform (adjusted proxy_info) older s ok = refl
  then_perform (scripted pac_script) older s ok = refl
  then_perform (vpn_reported success) older s ok = refl

  perform_all-assembled :
      (labels : List (Label N K)) (s : Network X C K W)
      → All NoSwitch labels
      → perform_all features cbs d contexts caches floats dec labels s ≡ assembled labels s
  perform_all-assembled [] s ok = refl
  perform_all-assembled (l ∷ older) s ok =
      ap (perform features cbs d contexts caches floats dec l) (perform_all-assembled older s ok.1)
      ∙ then_perform l older s ok.0

  assembled-Agree :
      (labels labels' : List (Label N K)) (s : Network X C K W)
      → Agree labels labels'
      → assembled labels s ≡ assembled labels' s
  assembled-Agree labels labels' s h =
      rw
        (
          h the_context,
          h the_connection,
          h the_monitor,
          h the_cache,
          h the_score,
          h the_flag,
          h the_rate,
        )
        refl

  pub perform_all-Agree :
      (labels labels' : List (Label N K)) (s : Network X C K W)
      → All NoSwitch labels
      → All NoSwitch labels'
      → Agree labels labels'
      → perform_all features cbs d contexts caches floats dec labels s
        ≡ perform_all features cbs d contexts caches floats dec labels' s
  perform_all-Agree labels labels' s ok ok' h =
      perform_all-assembled labels s ok
      ∙ assembled-Agree labels labels' s h
      ∙ sym (perform_all-assembled labels' s ok')

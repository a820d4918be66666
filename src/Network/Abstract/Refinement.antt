-- ===== src/Network/Abstract/Refinement.antt =====
-- The reachable states refine the abstract view of the calls, and what a request, and a handshake,
-- get from it.
use kiwi_network_patches.Prelude.{
  ◌≡◌, ◌↔◌, refl, sym, ap, ◌∙◌, Bool, true, false, none, some, List, [], ◌∷◌, arith, if◌then◌else◌,
}
use mathlib.Core.Bool.{false≢true}
use mathlib.Core.Option.{some-ne-none}
use kiwi_network_patches.Prelude.Bytes.{Bytes, is_empty}
use kiwi_network_patches.Platform.Features.{FeatureList, use_dns_https_svcb, encrypted_client_hello}
use kiwi_network_patches.Platform.Bytestring.{Cbs, IsCbs}
use kiwi_network_patches.Platform.DnsProtocol.{DnsProtocol}
use kiwi_network_patches.Platform.ResolveContext.{ContextOps, IsContext}
use kiwi_network_patches.Platform.Float.{FloatOps}
use kiwi_network_patches.Platform.LruCache.{LruOps, IsLru}
use kiwi_network_patches.Request.{get_ech_config_for_request, apply_ech_config_to_request}
use kiwi_network_patches.Request.Pipeline.{request_with}
use kiwi_network_patches.Retry.Cache.{CacheEntry, max_entries}
use kiwi_network_patches.Retry.Cache.Exact.{peek-timed_run}
use kiwi_network_patches.Retry.Monitor.{should_disable_ech}
use kiwi_network_patches.Retry.Monitor.History
use kiwi_network_patches.Retry.Monitor.History.{
  Degraded, results_of, run-results_of, should_disable_ech_iff,
}
use kiwi_network_patches.Android.{ConnectionType}
use kiwi_network_patches.Android.Vpn.{record_quic_result_over_vpn}
use kiwi_network_patches.Android.Vpn.Rate
use kiwi_network_patches.Network.{Network, Label, Step, start, Reach, here, next}
use kiwi_network_patches.Network.Abstract.{
  events, cache_calls, vpn_results, average, Latest, never, Tracks, Refines,
}
use kiwi_network_patches.Network.Abstract.Steps.{Step-connection, Step-statistics, Step-latest}
use kiwi_network_patches.Network.Abstract.Unique.{Latest-unique}
use kiwi_network_patches.Network.Abstract.Surroundings.{
  Step-score, Step-flag, Step-rate, Resolves-none,
}
use kiwi_network_patches.Network.Abstract.Calls.{Step-cache}
use kiwi_network_patches.Network.Abstract.Sent.{Step-sent}

Latest-never :
    {N K : Type 0} (d : DnsProtocol) (j : N) (labels : List (Label N K)) (config : Bytes)
    → labels ≡ []
    → is_empty config ≡ true
    → Latest d j labels config
Latest-never d j [] [] e h = never
Latest-never d j (l ∷ labels) [] e h = absurd cc
Latest-never d j labels (b ∷ config) e h = absurd cc

run-average :
    {W : Type 0} (floats : FloatOps W) (results : List Bool) (rate : W)
    → Rate.run floats results rate ≡ average floats rate results
unfolding record_quic_result_over_vpn
run-average floats [] rate = refl
run-average floats (true ∷ results) rate = run-average floats results _
run-average floats (false ∷ results) rate = run-average floats results _

module _ {X C N K W : Type 0} (features : FeatureList) (cbs : Cbs) (cbs_laws : IsCbs cbs)
    (d : DnsProtocol) (contexts : ContextOps X N) (laws : IsContext contexts)
    (caches : LruOps C K CacheEntry) (floats : FloatOps W) (lru : IsLru caches max_entries)
    (dec : Discrete K) (dec_nik : Discrete N) (svcb : features use_dns_https_svcb ≡ true)
    (on : features encrypted_client_hello ≡ true) (at_first : ConnectionType) where
  Step-Tracks :
      {s u : Network X C K W} {l : Label N K} (labels : List (Label N K))
      → Step features cbs d contexts caches floats dec s l u
      → Tracks d contexts caches floats dec at_first labels s
      → Tracks d contexts caches floats dec at_first (l ∷ labels) u
  Step-Tracks labels step h = record {
    same_connection =
        Step-connection features cbs d contexts caches floats dec at_first labels step
          h.same_connection;
    same_statistics =
        Step-statistics features cbs d contexts caches floats dec at_first labels step
          h.same_connection h.same_statistics;
    same_score = Step-score features cbs d contexts caches floats dec labels step h.same_score;
    same_flag = Step-flag features cbs d contexts caches floats dec labels step h.same_flag;
    same_rate = Step-rate features cbs d contexts caches floats dec labels step h.same_rate;
    latest_config = λ j.
        Step-latest features cbs cbs_laws d contexts laws svcb caches floats dec dec_nik labels j
          step (h.latest_config j);
    same_cache =
        Step-cache features cbs d contexts caches floats dec on at_first labels step
          h.same_connection h.same_cache;
    latest_sent =
        Step-sent features cbs d contexts caches floats lru dec on at_first labels step
          h.same_connection h.latest_sent;
  }

  module _ (context : X)
      (empty : (j : N) → is_empty (contexts.get_ech_config j context) ≡ true) where
    pub Reach-Tracks :
        {u : Network X C K W} {labels : List (Label N K)}
        → Reach features cbs d contexts caches floats dec
            (start features cbs d contexts caches floats dec context at_first)
            labels
            u
        → Tracks d contexts caches floats dec at_first labels u
    unfolding History.run
    Reach-Tracks here = record {
      same_connection = refl;
      same_statistics = refl;
      same_score = omega arith;
      same_flag = (λ e. absurd (false≢true e), Resolves-none);
      same_rate = refl;
      latest_config = λ j. Latest-never d j [] _ refl (empty j);
      same_cache = refl;
      latest_sent = λ k e there. absurd (some-ne-none e (sym there ∙ lru.peek-empty k));
    }
    Reach-Tracks (next {labels} before step) = Step-Tracks labels step (Reach-Tracks before)

    -- With both features on, every state that the calls of the sources lead to, in any order, at any
    -- times, and with other calls in the middle of a switch of the network, from a start without ECH
    -- configurations, is what the calls say. The network is the last one of WIFI, 4G or 5G that was
    -- switched to, or else the first one. The counters of a host are the number of its results since
    -- its last reset and the last clearing, on its own or in a switch, the number of successes among
    -- them, and that of the failures behind the last success. The score is that of the connections
    -- since the last new environment. `NeedsDohFallback` says yes exactly if `dnsResolve` stands in a
    -- script that was checked. The average over VPNs starts at 0.8, and each result moves it by a
    -- tenth towards 1 or 0. The ECH configuration of a key is that of the latest answer for the key
    -- whose first valid record has one. As long as no more than 1000 configs were stored since the
    -- cache was last cleared, its entries are those of a map with times; and in any case each entry
    -- holds the config that its host was last sent, which was neither dropped nor cleared since.
    pub Reach-Refines :
        {u : Network X C K W} {labels : List (Label N K)}
        → Reach features cbs d contexts caches floats dec
            (start features cbs d contexts caches floats dec context at_first)
            labels
            u
        → Refines d contexts caches floats dec at_first labels u
    Reach-Refines {labels = labels} reached =
        let tracked = Reach-Tracks reached in
        record {
          same_connection = tracked.same_connection;
          same_statistics = λ host.
              ap (λ m. m host) tracked.same_statistics
              ∙ run-results_of dec host (events at_first labels);
          same_score = tracked.same_score;
          same_flag = tracked.same_flag;
          same_rate = tracked.same_rate ∙ run-average floats (vpn_results labels) _;
          latest_config = tracked.latest_config;
          same_entries = λ room k.
              ap (caches.peek k) tracked.same_cache
              ∙ peek-timed_run caches lru dec (cache_calls at_first labels) k room;
          latest_sent = tracked.latest_sent;
        }

    -- With both features on, in every state that the calls of the sources lead to, in any order, from
    -- a start without ECH configurations, `ApplyEchConfigToRequest` sets for a request the ECH configuration of the
    -- latest answer for the request's key whose first valid record has one, and nothing if there
    -- was none; the calls leave no choice of that configuration.
    pub request-Latest :
        {u : Network X C K W} {labels : List (Label N K)}
        → Reach features cbs d contexts caches floats dec
            (start features cbs d contexts caches floats dec context at_first)
            labels
            u
        → (j : N)
        → (config : Bytes) × Latest d j labels config
          × (apply_ech_config_to_request contexts features (request_with u.context j)
              ≡ (if is_empty config then none else some config))
          × ((config' : Bytes) → Latest d j labels config' → config' ≡ config)
    unfolding apply_ech_config_to_request get_ech_config_for_request
    request-Latest {u} {labels} reached j = (
      contexts.get_ech_config j u.context,
      (Reach-Refines reached).latest_config j,
      rw on,
      λ config' h.
          Latest-unique cbs cbs_laws d j labels config' _ h
            ((Reach-Refines reached).latest_config j),
    )

    -- With both features on, in every state that the calls of the sources lead to, in any order, from
    -- a start without ECH configurations, ECH is to be disabled for a host exactly if the host is degraded by the
    -- reports about it since its last reset and the last switch of the network.
    pub should_disable_ech-Reach :
        {u : Network X C K W} {labels : List (Label N K)}
        → Reach features cbs d contexts caches floats dec
            (start features cbs d contexts caches floats dec context at_first)
            labels
            u
        → (host : K)
        → (should_disable_ech dec host u.device.monitor ≡ true)
          ↔ Degraded (results_of dec host (events at_first labels))
    should_disable_ech-Reach {u} {labels} reached host =
        rw (Reach-Tracks reached).same_statistics
          (should_disable_ech_iff dec host (events at_first labels))

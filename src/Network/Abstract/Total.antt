-- ===== src/Network/Abstract/Total.antt =====
-- Which states the calls lead to: one, always.
use kiwi_network_patches.Prelude.{◌≡◌, true, List, All}
use kiwi_network_patches.Prelude.Bytes.{is_empty}
use kiwi_network_patches.Platform.Features.{FeatureList, use_dns_https_svcb, encrypted_client_hello}
use kiwi_network_patches.Platform.Bytestring.{Cbs, IsCbs}
use kiwi_network_patches.Platform.DnsProtocol.{DnsProtocol}
use kiwi_network_patches.Platform.ResolveContext.{ContextOps, IsContext}
use kiwi_network_patches.Platform.Float.{FloatOps}
use kiwi_network_patches.Platform.LruCache.{LruOps, IsLru}
use kiwi_network_patches.Retry.Cache.{CacheEntry, max_entries}
use kiwi_network_patches.Android.{ConnectionType}
use kiwi_network_patches.Network.{Network, Label, start, Reach}
use kiwi_network_patches.Network.Perform.{BytesOf}
use kiwi_network_patches.Network.Determined.{Reach-perform, perform_all-Reach}
use kiwi_network_patches.Network.Abstract.{Refines}
use kiwi_network_patches.Network.Abstract.Refinement.{Reach-Refines}

module _ {X C N K W : Type 0} (features : FeatureList) (cbs : Cbs) (cbs_laws : IsCbs cbs)
    (d : DnsProtocol) (contexts : ContextOps X N) (laws : IsContext contexts)
    (caches : LruOps C K CacheEntry) (floats : FloatOps W) (lru : IsLru caches max_entries)
    (dec : Discrete K) (dec_nik : Discrete N) (svcb : features use_dns_https_svcb ≡ true)
    (on : features encrypted_client_hello ≡ true) (at_first : ConnectionType) (context : X)
    (empty : (j : N) → is_empty (contexts.get_ech_config j context) ≡ true) where
  -- With both features on, any calls in any order, whose records are bytes, lead from a start without
  -- ECH configurations to one state and no other, whatever BoringSSL answers and whatever the settings
  -- of the connections are: none of the calls is stuck. That state is what the calls say: the network,
  -- the counters of each host, the score, the flag, the average, the ECH configuration of each key, and
  -- what the cache holds.
  pub Reach-total :
      (labels : List (Label N K))
      → All BytesOf labels
      → let origin = start features cbs d contexts caches floats dec context at_first in
        (u : Network X C K W) × Reach features cbs d contexts caches floats dec origin labels u
        × Refines d contexts caches floats dec at_first labels u
        × ((u' : Network X C K W)
            → Reach features cbs d contexts caches floats dec origin labels u'
            → u' ≡ u)
  Reach-total labels bytes =
      let reached =
        perform_all-Reach features cbs cbs_laws d contexts caches floats dec labels _ bytes in
      (
        _,
        reached,
        Reach-Refines features cbs cbs_laws d contexts laws caches floats lru dec dec_nik svcb on
            at_first context empty reached,
        λ u' other. (Reach-perform features cbs cbs_laws d contexts caches floats dec other).1,
      )

-- ===== src/Network/Abstract/Threads.antt =====
-- Runs of several threads on the shared state: what counts is the order of the calls on each object.
use kiwi_network_patches.Prelude.{◌≡◌, sym, ◌∙◌, List}
use kiwi_network_patches.Platform.Features.{FeatureList}
use kiwi_network_patches.Platform.Bytestring.{Cbs, IsCbs}
use kiwi_network_patches.Platform.DnsProtocol.{DnsProtocol}
use kiwi_network_patches.Platform.ResolveContext.{ContextOps}
use kiwi_network_patches.Platform.Float.{FloatOps}
use kiwi_network_patches.Platform.LruCache.{LruOps}
use kiwi_network_patches.Retry.Cache.{CacheEntry}
use kiwi_network_patches.Android.{ConnectionType}
use kiwi_network_patches.Network.{Network, Label, start, Reach}
use kiwi_network_patches.Network.Determined.{Reach-perform}
use kiwi_network_patches.Network.Objects.{Agree, perform_all-Agree}
use kiwi_network_patches.Network.Abstract.Split.{split, Reach-split}

module _ {X C N K W : Type 0} (features : FeatureList) (cbs : Cbs) (cbs_laws : IsCbs cbs)
    (d : DnsProtocol) (contexts : ContextOps X N) (caches : LruOps C K CacheEntry)
    (floats : FloatOps W) (dec : Discrete K) (at_first : ConnectionType) (context : X) where
  -- Two runs of a new process, of whatever threads, end in the same state if the calls on each of the
  -- objects are the same and in the same order: the resolve context, the type of the network, the
  -- monitor, the cache, the score, the flag and the average. A switch to another network counts as a
  -- call on the type, one on the monitor and one on the cache; other notifications do not count.
  pub Reach-Agree :
      {u u' : Network X C K W} {labels labels' : List (Label N K)}
      → Reach features cbs d contexts caches floats dec
          (start features cbs d contexts caches floats dec context at_first)
          labels
          u
      → Reach features cbs d contexts caches floats dec
          (start features cbs d contexts caches floats dec context at_first)
          labels'
          u'
      → Agree (split at_first labels) (split at_first labels')
      → u ≡ u'
  Reach-Agree {labels = labels} {labels' = labels'} reached reached' same =
      let (run, ok) =
        Reach-split features cbs d contexts caches floats dec at_first context reached in
      let (run', ok') =
        Reach-split features cbs d contexts caches floats dec at_first context reached' in
      (Reach-perform features cbs cbs_laws d contexts caches floats dec run).1
      ∙ perform_all-Agree features cbs d contexts caches floats dec (split at_first labels)
          (split at_first labels') _ ok ok' same
      ∙ sym (Reach-perform features cbs cbs_laws d contexts caches floats dec run').1

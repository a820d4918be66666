-- ===== src/Network/Reached.antt =====
-- What holds in every state that the calls can reach, in whatever order they come.
use kiwi_network_patches.Prelude.{
  inl, inr, ◌≡◌, sym, ◌∙◌, subst, true, some, some-injective, List, [], ◌∷◌, length, arith,
  Bool-cases,
}
use mathlib.Core.Option.{some-ne-none}
use mathlib.Core.Bool.{true≢false}
use kiwi_network_patches.Prelude.Bytes.{Bytes, is_empty}
use kiwi_network_patches.Platform.Features.{FeatureList, encrypted_client_hello}
use kiwi_network_patches.Platform.Bytestring.{Cbs, IsCbs}
use kiwi_network_patches.Platform.DnsProtocol.{DnsProtocol}
use kiwi_network_patches.Platform.ResolveContext.{ContextOps, IsContext}
use kiwi_network_patches.Platform.Float.{FloatOps}
use kiwi_network_patches.Platform.LruCache.{LruOps, IsLru}
use kiwi_network_patches.Retry.Cache.{CacheEntry, max_entries}
use kiwi_network_patches.Request.{get_ech_config_for_request, apply_ech_config_to_request}
use kiwi_network_patches.Request.Pipeline.{request_with}
use kiwi_network_patches.Dns.Process.FirstValid.{stored}
use kiwi_network_patches.Android.{ConnectionType}
use kiwi_network_patches.Network.{Network, Label, Step, start, Reach, here, next}
use kiwi_network_patches.Network.Invariant.{FromDns, Inv}
use kiwi_network_patches.Network.Steps.{Step-size, Step-ech, Step-retry, Step-counted}

module _ {X C N K W : Type 0} (features : FeatureList) (cbs : Cbs) (cbs_laws : IsCbs cbs)
    (d : DnsProtocol) (contexts : ContextOps X N) (laws : IsContext contexts)
    (caches : LruOps C K CacheEntry) (floats : FloatOps W) (lru : IsLru caches max_entries)
    (dec : Discrete K) (dec_nik : Discrete N) where
  Step-Inv :
      {s u : Network X C K W} {l : Label N K} (labels : List (Label N K))
      → Step features cbs d contexts caches floats dec s l u
      → Inv d contexts caches labels s
      → Inv d contexts caches (l ∷ labels) u
  Step-Inv labels step inv = record {
    size_bound =
        Step-size features cbs cbs_laws d contexts laws caches floats lru dec dec_nik step
          inv.size_bound;
    ech_known = λ j.
        Step-ech features cbs cbs_laws d contexts laws caches floats lru dec dec_nik labels j step
          (inv.ech_known j);
    retry_known = λ k e.
        Step-retry features cbs cbs_laws d contexts laws caches floats lru dec dec_nik labels k e
          step (inv.retry_known k);
    counted = λ k st.
        Step-counted features cbs cbs_laws d contexts laws caches floats lru dec dec_nik
          (length labels) k st step inv.counted;
  }

  start-Inv :
      (context : X) (type : ConnectionType)
      → ((j : N) → is_empty (contexts.get_ech_config j context) ≡ true)
      → Inv d contexts caches [] (start features cbs d contexts caches floats dec context type)
  start-Inv context type h = record {
    size_bound = rw lru.size-empty (omega arith);
    ech_known = λ j ne. absurd (true≢false (sym (h j) ∙ ne));
    retry_known = λ k e there. absurd (some-ne-none e (sym there ∙ lru.peek-empty k));
    counted = λ k st there. absurd (some-ne-none st (sym there));
  }

  -- In every state that the calls of the sources lead to, in any order, from a start without ECH
  -- configurations: the cache has at most 1000 entries; every ECH configuration in the resolve
  -- context was in the first valid record of an answer for its key; every config in the cache
  -- was sent by a server for its host; and the counters of a host do not contradict each other,
  -- nor exceed the number of calls.
  pub Reach-Inv :
      (context : X) (type : ConnectionType)
      → ((j : N) → is_empty (contexts.get_ech_config j context) ≡ true)
      → {u : Network X C K W} {labels : List (Label N K)}
      → Reach features cbs d contexts caches floats dec
          (start features cbs d contexts caches floats dec context type)
          labels
          u
      → Inv d contexts caches labels u
  Reach-Inv context type h here = start-Inv context type h
  Reach-Inv context type h (next {labels} before step) =
      Step-Inv labels step (Reach-Inv context type h before)

  -- In every such state, what `ApplyEchConfigToRequest` sets for a request is the ECH
  -- configuration of the first valid record of an answer for the request's key: none is built
  -- in, or leaks from another key.
  pub request-FromDns :
      (context : X) (type : ConnectionType)
      → ((j : N) → is_empty (contexts.get_ech_config j context) ≡ true)
      → {u : Network X C K W} {labels : List (Label N K)}
      → Reach features cbs d contexts caches floats dec
          (start features cbs d contexts caches floats dec context type)
          labels
          u
      → (j : N) (config : Bytes)
      → apply_ech_config_to_request contexts features (request_with u.context j) ≡ some config
      → FromDns d labels j config
  unfolding apply_ech_config_to_request get_ech_config_for_request
  request-FromDns context type h {u} {labels} reached j config given =
      let inv = Reach-Inv context type h reached in
      elim (Bool-cases (features encrypted_client_hello)) [
        | inr off ↦ absurd (some-ne-none config (sym (rw off at given)))
        | inl on ↦ elim (Bool-cases (is_empty (contexts.get_ech_config j u.context))) [
          | inl none_stored ↦ absurd (some-ne-none config (sym (rw (on, none_stored) at given)))
          | inr stored ↦
              subst (FromDns d labels j) (some-injective _ _ (rw (on, stored) at given))
                (inv.ech_known j stored)
        ]
      ]

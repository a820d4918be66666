-- ===== src/Network/Abstract/Sent.antt =====
-- The cache of retry configs, step by step, against the configs that the servers sent.
use kiwi_network_patches.Prelude.{
  ℕ, ◌≡◌, refl, sym, ap, ◌∙◌, subst, inl, inr, true, false, Option, none, some, some-injective,
  List, [], ◌∷◌, Bool-cases,
}
use mathlib.Core.Option.{some-ne-none}
use mathlib.Core.Logic.{if_pos, if_neg}
use kiwi_network_patches.Prelude.Bytes.{Bytes, is_empty}
use kiwi_network_patches.Platform.Features.{FeatureList, encrypted_client_hello}
use kiwi_network_patches.Platform.Bytestring.{Cbs}
use kiwi_network_patches.Platform.DnsProtocol.{DnsProtocol}
use kiwi_network_patches.Platform.ResolveContext.{ContextOps}
use kiwi_network_patches.Platform.Float.{FloatOps}
use kiwi_network_patches.Platform.LruCache.{LruOps, IsLru}
use kiwi_network_patches.Platform.BoringSsl.{Trace, SslEnv}
use kiwi_network_patches.Retry.Cache.{
  CacheEntry, max_entries, store, clear, invalidate, handle_ech_retry,
}
use kiwi_network_patches.Retry.Cache.Handler.{handle_ech_retry-fallback}
use kiwi_network_patches.Retry.Cache.Peeks.{get-keeps}
use kiwi_network_patches.Quic.{can_use_0rtt_with_ech}
use kiwi_network_patches.Android.{ConnectionType}
use kiwi_network_patches.Network.{
  Network, Label, retried, dropped, all_dropped, Step, resolve, retry, report, look_up, drop_config,
  migrate, clear_monitor, clear_cache, move, switch, observe, adjust, check_script, report_vpn,
}
use kiwi_network_patches.Network.Origins.{can_use_0rtt-origin, cache-enter_network}
use kiwi_network_patches.Network.Abstract.{changes, connection, sent_config}
use kiwi_network_patches.Network.Abstract.Steps.{on_network_changed-changes}

module _ {C K : Type 0} (caches : LruOps C K CacheEntry) (features : FeatureList)
    (on : features encrypted_client_hello ≡ true) where
  pub handle_ech_retry-store :
      (env : SslEnv) (now : ℕ) (host : K) (c : C) (t : Trace) (config : Bytes)
      → env.retry_configs t ≡ some config
      → is_empty config ≡ false
      → (handle_ech_retry caches features env now host c t).1 ≡ store caches now host config c
  unfolding handle_ech_retry
  handle_ech_retry-store env now host c t config server given =
      rw (on, server, given, handle_ech_retry)

module _ {X C N K W : Type 0} (features : FeatureList) (cbs : Cbs) (d : DnsProtocol)
    (contexts : ContextOps X N) (caches : LruOps C K CacheEntry) (floats : FloatOps W)
    (lru : IsLru caches max_entries) (dec : Discrete K)
    (on : features encrypted_client_hello ≡ true) (at_first : ConnectionType)
    (labels : List (Label N K)) where
  -- Every entry of a cache holds the config that its host was last sent.
  abbrev Known : List (Label N K) → C → Type 0
  Known labels c =
      (k : K) (e : CacheEntry)
      → caches.peek k c ≡ some e
      → sent_config dec at_first k labels ≡ some e.config

  Known-store :
      (now : ℕ) (host : K) (config : Bytes) (c : C)
      → is_empty config ≡ false
      → Known labels c
      → Known (retried now host (some config) ∷ labels) (store caches now host config c)
  unfolding store
  Known-store now host config c given h k e there =
      let new : CacheEntry = record { config = config; stored_at = now } in
      elim (dec k host) [
        | yes same ↦
            let entry : new ≡ e =
              some-injective _ _ (sym (lru.peek-put host new c) ∙ (rw same at there)) in
            rw (given, if_pos _ same) (ap (λ (x : CacheEntry). some x.config) entry)
        | no other ↦ elim (lru.peek-put_ne host k new c other) [
          | inl kept ↦ rw (given, if_neg _ other) (h k e (sym kept ∙ there))
          | inr gone ↦ absurd (some-ne-none e (sym there ∙ gone))
        ]
      ]

  Known-retry :
      (env : SslEnv) (now : ℕ) (host : K) (config : Option Bytes) (c : C) (t : Trace)
      → env.retry_configs t ≡ config
      → Known labels c
      → Known
          (retried now host config ∷ labels)
          (handle_ech_retry caches features env now host c t).1
  Known-retry env now host none c t server h =
      subst (Known labels)
        (sym (handle_ech_retry-fallback caches features env now host c t (inl server)).1) h
  Known-retry env now host (some []) c t server h =
      subst (Known labels)
        (sym (handle_ech_retry-fallback caches features env now host c t (inr server)).1) h
  Known-retry env now host (some (b ∷ config)) c t server h =
      subst (Known (retried now host (some (b ∷ config)) ∷ labels))
        (sym (handle_ech_retry-store caches features on env now host c t (b ∷ config) server refl))
        (Known-store now host (b ∷ config) c refl h)

  Known-look_up :
      (now : ℕ) (host : K) (config : Bytes) (c : C)
      → Known labels c
      → Known labels (can_use_0rtt_with_ech caches now host config c).1
  Known-look_up now host config c h k e there =
      elim (can_use_0rtt-origin caches now host config c) [
        | inl same ↦ h k e (rw same at there)
        | inr same ↦ elim (get-keeps caches lru dec now host k c) [
          | inl gone ↦ absurd (some-ne-none e (sym (rw same at there) ∙ gone))
          | inr kept ↦ h k e (sym kept ∙ (rw same at there))
        ]
      ]

  Known-drop :
      (host : K) (c : C) → Known labels c → Known (dropped host ∷ labels) (invalidate caches host c)
  unfolding invalidate
  Known-drop host c h k e there = elim (dec k host) [
    | yes same ↦ absurd (some-ne-none e (sym (rw same at there) ∙ lru.peek-erase host c))
    | no other ↦ rw (if_neg _ other) (h k e (sym (lru.peek-erase_ne host k c other) ∙ there))
  ]

  Known-clear : (labels' : List (Label N K)) (c : C) → Known labels' (clear caches c)
  unfolding clear
  Known-clear labels' c k e there = absurd (some-ne-none e (sym there ∙ lru.peek-clear k c))

  pub Step-sent :
      {s u : Network X C K W} {l : Label N K}
      → Step features cbs d contexts caches floats dec s l u
      → s.device.current_connection ≡ connection at_first labels
      → Known labels s.device.cache
      → Known (l ∷ labels) u.device.cache
  unfolding clear
  Step-sent (resolve nik records bytes run) at h = h
  Step-sent {s} (retry now host config env t server) at h =
      Known-retry env now host config s.device.cache t server h
  Step-sent (report host success) at h = h
  Step-sent {s} (look_up now host config) at h = Known-look_up now host config s.device.cache h
  Step-sent {s} (drop_config host) at h = Known-drop host s.device.cache h
  Step-sent (migrate host) at h = h
  Step-sent clear_monitor at h = h
  Step-sent {s} clear_cache at h = Known-clear (all_dropped ∷ labels) s.device.cache
  Step-sent {s} (move type) at h =
      λ k e there. h k e (rw (cache-enter_network type s.device) at there)
  Step-sent {s} (switch type) at h = elim (Bool-cases (changes type (connection at_first labels))) [
    | inl e ↦
        rw (on_network_changed-changes caches dec type s.device, at, e)
          (λ k x there. absurd (some-ne-none x (sym there ∙ lru.peek-clear k s.device.cache)))
    | inr e ↦ rw (on_network_changed-changes caches dec type s.device, at, e) h
  ]
  Step-sent (observe e) at h = h
  Step-sent (adjust proxy_info config) at h = h
  Step-sent (check_script pac_script) at h = h
  Step-sent (report_vpn success) at h = h

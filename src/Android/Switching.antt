-- ===== src/Android/Switching.antt =====
-- android_network_config.cc: what a sequence of network changes leaves.
use kiwi_network_patches.Prelude.{
  ◌≡◌, ◌≢◌, ◌⊎◌, inl, inr, refl, sym, ◌∙◌, ap, false, none, List, [], ◌∷◌, All, arith, ◌==◌,
  Bool-cases, subst,
}
use kiwi_network_patches.Platform.LruCache.{LruOps, IsLru}
use kiwi_network_patches.Retry.Cache.{CacheEntry, max_entries, clear}
use kiwi_network_patches.Retry.Monitor.{should_disable_ech, clear_all}
use kiwi_network_patches.Android.{
  ConnectionType, is_tracked, type_code, Device, on_active_network_changed, on_network_changed,
}

module _ {C K : Type 0} (ops : LruOps C K CacheEntry) (dec : Discrete K) where
  -- The changes in order, the oldest first.
  abbrev pub run : List ConnectionType → Device C K → Device C K
  run [] s = s
  run (type ∷ types) s = run types (on_network_changed ops dec type s)

  -- No host is without ECH, and no retry config is left.
  abbrev pub Clean : Device C K → Type 0
  Clean s =
      ((host : K) → should_disable_ech dec host s.monitor ≡ false)
      × ((k : K) → ops.peek k s.cache ≡ none)

module _ {C K : Type 0} (ops : LruOps C K CacheEntry) (lru : IsLru ops max_entries)
    (dec : Discrete K) where
  on_network_changed-Clean :
      (type : ConnectionType) (s : Device C K)
      → Clean ops dec s
      → Clean ops dec (on_network_changed ops dec type s)
  unfolding on_network_changed on_active_network_changed clear_all clear should_disable_ech
  on_network_changed-Clean type s h = elim (Bool-cases (is_tracked type)) [
    | inr e ↦ rw e h
    | inl e ↦ elim (Bool-cases (type_code type == type_code s.current_connection)) [
      | inl same ↦ rw (e, same) h
      | inr other ↦ rw (e, other) (λ host. refl, λ k. lru.peek-clear k s.cache)
    ]
  ]

  step-cases :
      (type : ConnectionType) (s : Device C K)
      → (on_network_changed ops dec type s ≡ s) ⊎ Clean ops dec (on_network_changed ops dec type s)
  unfolding on_network_changed on_active_network_changed clear_all clear should_disable_ech
  step-cases type s = elim (Bool-cases (is_tracked type)) [
    | inr e ↦ inl (rw e)
    | inl e ↦ elim (Bool-cases (type_code type == type_code s.current_connection)) [
      | inl same ↦ inl (rw (e, same))
      | inr other ↦ inr (rw (e, other) (λ host. refl, λ k. lru.peek-clear k s.cache))
    ]
  ]

  run-Clean_kept :
      (types : List ConnectionType) (s : Device C K)
      → Clean ops dec s
      → Clean ops dec (run ops dec types s)
  run-Clean_kept [] s h = h
  run-Clean_kept (type ∷ types) s h = run-Clean_kept types _ (on_network_changed-Clean type s h)

  run-cases :
      (types : List ConnectionType) (s : Device C K)
      → (run ops dec types s ≡ s) ⊎ Clean ops dec (run ops dec types s)
  run-cases [] s = inl refl
  run-cases (type ∷ types) s = elim (step-cases type s) [
    | inr clean ↦ inr (run-Clean_kept types _ clean)
    | inl same ↦
        subst (λ t. (run ops dec types t ≡ s) ⊎ Clean ops dec (run ops dec types t)) (sym same)
          (run-cases types s)
  ]

  -- After any changes that end on another network than they began on, no host is without ECH, and
  -- the cache of retry configs has no entry.
  pub run-Clean :
      (types : List ConnectionType) (s : Device C K)
      → (run ops dec types s).current_connection ≢ s.current_connection
      → Clean ops dec (run ops dec types s)
  run-Clean types s ne = elim (run-cases types s) [
    | inl same ↦ absurd (ne (ap (λ d. d.current_connection) same))
    | inr clean ↦ clean
  ]

  step-same : (s : Device C K) → on_network_changed ops dec s.current_connection s ≡ s
  unfolding on_network_changed on_active_network_changed
  step-same s = ground arith

  step-untracked :
      (type : ConnectionType) (s : Device C K)
      → is_tracked type ≡ false
      → on_network_changed ops dec type s ≡ s
  unfolding on_network_changed
  step-untracked type s h = rw h

  run-still :
      (types : List ConnectionType) (s : Device C K)
      → All (λ type. is_tracked type ≡ false) types
      → run ops dec types s ≡ s
  run-still [] s h = refl
  run-still (type ∷ types) s h =
      ap (run ops dec types) (step-untracked type s h.0) ∙ run-still types s h.1

  -- Changes to networks that are none of WIFI, 4G and 5G, and back to the network before them,
  -- leave the observer, the statistics and the cache as they were.
  pub run-untracked :
      (types : List ConnectionType) (s : Device C K)
      → All (λ type. is_tracked type ≡ false) types
      → on_network_changed ops dec s.current_connection (run ops dec types s) ≡ s
  run-untracked types s h =
      ap (on_network_changed ops dec s.current_connection) (run-still types s h) ∙ step-same s

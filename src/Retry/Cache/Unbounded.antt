-- ===== src/Retry/Cache/Unbounded.antt =====
-- ech_retry_handler.cc: the cache against a map that forgets nothing by itself, and returns the last
-- config that a host was given.
use kiwi_network_patches.Prelude.{
  ℕ, ◌-◌, ◌≤◌, ◌≡◌, sym, ◌∙◌, ap, ◌⊎◌, inl, inr, Option, none, some, List, [], ◌∷◌, arith,
  Option-cases, dec_le,
}
use mathlib.Core.Logic.{ite, if_pos, if_neg}
use kiwi_network_patches.Platform.LruCache.{LruOps, IsLru}
use kiwi_network_patches.Retry.Cache.{
  CacheEntry, hours_24, max_entries, store, get, invalidate, clear,
}
use kiwi_network_patches.Retry.Cache.Peeks.{get-keeps}
use kiwi_network_patches.Retry.Cache.Entries.{
  Op, op_store, op_get, op_invalidate, op_clear, step, run, get-fresh, get-expired, get-missing,
}

module _ {K : Type 0} (dec : Discrete K) where
  -- What a call does to the map: only `Store`, `Invalidate` and `Clear` change it.
  unfoldable pub map_step : Op K → (K → Option CacheEntry) → K → Option CacheEntry
  map_step (op_store now k config) m j =
      ite (dec j k) (some (record { config = config; stored_at = now })) (m j)
  map_step (op_get now k) m j = m j
  map_step (op_invalidate k) m j = ite (dec j k) none (m j)
  map_step op_clear m j = none

  abbrev pub map_run : List (Op K) → (K → Option CacheEntry) → K → Option CacheEntry
  map_run [] m = m
  map_run (o ∷ calls) m = map_run calls (map_step o m)

module _ {C K : Type 0} (ops : LruOps C K CacheEntry) (lru : IsLru ops max_entries)
    (dec : Discrete K) where
  -- The cache holds nothing that the map does not hold.
  abbrev Refines : C → (K → Option CacheEntry) → Type 0
  Refines c m = (j : K) → (ops.peek j c ≡ none) ⊎ (ops.peek j c ≡ m j)

  step-Refines :
      (o : Op K) (c : C) (m : K → Option CacheEntry)
      → Refines c m
      → Refines (step ops o c) (map_step dec o m)
  unfolding map_step store invalidate clear
  step-Refines (op_store now k config) c m h j = elim (dec j k) [
    | yes same ↦ inr (rw (if_pos _ same, same) (lru.peek-put k _ c))
    | no other ↦ elim (lru.peek-put_ne k j _ c other) [
      | inr gone ↦ inl gone
      | inl kept ↦ elim (h j) [
        | inl e ↦ inl (kept ∙ e)
        | inr e ↦ inr (rw (if_neg _ other) (kept ∙ e))
      ]
    ]
  ]
  step-Refines (op_get now k) c m h j = elim (get-keeps ops lru dec now k j c) [
    | inl e ↦ inl e
    | inr kept ↦ elim (h j) [ inl e ↦ inl (kept ∙ e) | inr e ↦ inr (kept ∙ e) ]
  ]
  step-Refines (op_invalidate k) c m h j = elim (dec j k) [
    | yes same ↦ inl (rw same (lru.peek-erase k c))
    | no other ↦ elim (h j) [
      | inl e ↦ inl (lru.peek-erase_ne k j c other ∙ e)
      | inr e ↦ inr (rw (if_neg _ other) (lru.peek-erase_ne k j c other ∙ e))
    ]
  ]
  step-Refines op_clear c m h j = inl (lru.peek-clear j c)

  run-Refines :
      (calls : List (Op K)) (c : C) (m : K → Option CacheEntry)
      → Refines c m
      → Refines (run ops calls c) (map_run dec calls m)
  run-Refines [] c m h = h
  run-Refines (o ∷ calls) c m h =
      run-Refines calls (step ops o c) (map_step dec o m) (step-Refines o c m h)

  get-Refines :
      (now : ℕ) (k : K) (c : C) (m : K → Option CacheEntry)
      → Refines c m
      → ((get ops now k c).0 ≡ [])
        ⊎ ((e : CacheEntry) × (m k ≡ some e)
            × ((get ops now k c).0 ≡ e.config)
            × (now - e.stored_at ≤ hours_24))
  get-Refines now k c m h = elim (Option-cases (ops.peek k c)) [
    | inl e ↦ inl (ap (λ r. r.0) (get-missing ops lru now k c e))
    | inr (e, there) ↦ elim (dec_le (now - e.stored_at) hours_24) [
      | no old ↦ inl (ap (λ r. r.0) (get-expired ops lru now k c e there (omega arith)))
      | yes young ↦ elim (h k) [
        | inl gone ↦ absurd (cc)
        | inr kept ↦
            inr
              (e, sym kept ∙ there, ap (λ r. r.0) (get-fresh ops lru now k c e there young), young)
      ]
    ]
  ]

  -- After any calls on a cleared cache, `Get` returns nothing, or the config that was stored last
  -- for the host, by a `Store` with no `Invalidate` of the host and no `Clear` behind it and no more
  -- than 24 hours ago: what the cache drops by itself is all that tells it from a map.
  pub run-get :
      (calls : List (Op K)) (now : ℕ) (k : K) (c : C)
      → ((get ops now k (run ops calls (clear ops c))).0 ≡ [])
        ⊎ ((e : CacheEntry) × (map_run dec calls (λ j. none) k ≡ some e)
            × ((get ops now k (run ops calls (clear ops c))).0 ≡ e.config)
            × (now - e.stored_at ≤ hours_24))
  unfolding clear
  run-get calls now k c =
      get-Refines now k _ _
        (run-Refines calls (clear ops c) (λ j. none) (λ j. inl (lru.peek-clear j c)))

-- ===== src/Retry/Cache/Entries.antt =====
-- ech_retry_handler.cc: what the cache of retry configs returns, and how large it grows.
use kiwi_network_patches.Prelude.{
  ℕ, ◌+◌, ◌-◌, ◌≤◌, ◌<◌, ◌≡◌, ◌≢◌, ◌∙◌, ap, none, some, List, [], ◌∷◌, arith, ltb, le→ltb, lt→ltb,
  inl, inr, Option-cases, Bool-cases,
}
use kiwi_network_patches.Prelude.Bytes.{Bytes}
use kiwi_network_patches.Platform.LruCache.{LruOps, IsLru}
use kiwi_network_patches.Retry.Cache.{
  CacheEntry, hours_24, max_entries, store, get, invalidate, clear, size,
}

module _ {C K : Type 0} (ops : LruOps C K CacheEntry) (lru : IsLru ops max_entries) where
  -- What `Get` returns and leaves, by the entry that is there.
  pub get-fresh :
      (now : ℕ) (k : K) (c : C) (e : CacheEntry)
      → ops.peek k c ≡ some e
      → now - e.stored_at ≤ hours_24
      → get ops now k c ≡ (e.config, (ops.get k c).1)
  unfolding get
  get-fresh now k c e there young = rw (lru.get-peek k c ∙ there, le→ltb _ _ young, get)

  pub get-missing :
      (now : ℕ) (k : K) (c : C) → ops.peek k c ≡ none → get ops now k c ≡ ([], (ops.get k c).1)
  unfolding get
  get-missing now k c gone = rw (lru.get-peek k c ∙ gone, get)

  pub get-expired :
      (now : ℕ) (k : K) (c : C) (e : CacheEntry)
      → ops.peek k c ≡ some e
      → hours_24 < now - e.stored_at
      → get ops now k c ≡ ([], ops.erase k (ops.get k c).1)
  unfolding get
  get-expired now k c e there old = rw (lru.get-peek k c ∙ there, lt→ltb _ _ old, get)

  -- A config is returned up to 24 hours after it was stored, ends included.
  pub get-store :
      (now later : ℕ) (k : K) (config : Bytes) (c : C)
      → later ≤ now + hours_24
      → (get ops later k (store ops now k config c)).0 ≡ config
  unfolding store
  get-store now later k config c young =
      ap (λ r. r.0) (get-fresh later k _ _ (lru.peek-put k _ c) (omega arith))

  -- Later than that nothing is returned, the entry is gone, and every other one is still there.
  pub get-store_expired :
      (now later : ℕ) (k j : K) (config : Bytes) (c : C)
      → now + hours_24 < later
      → j ≢ k
      → ((get ops later k (store ops now k config c)).0 ≡ [])
        × (ops.peek k (get ops later k (store ops now k config c)).1 ≡ none)
        × (ops.peek j (get ops later k (store ops now k config c)).1
            ≡ ops.peek j (store ops now k config c))
  unfolding store
  get-store_expired now later k j config c old other =
      let stored = ops.put k (record { config = config; stored_at = now }) c in
      let gone = get-expired later k stored _ (lru.peek-put k _ c) (omega arith) in
      (
        ap (λ r. r.0) gone,
        ap (λ r. ops.peek k r.1) gone ∙ lru.peek-erase k _,
        ap (λ r. ops.peek j r.1) gone ∙ lru.peek-erase_ne k j _ other ∙ lru.peek-get k j stored,
      )

-- The calls of the cache's methods.
pub data Op (K : Type 0) : Type 0 where
  op_store : ℕ → K → Bytes → Op K
  op_get : ℕ → K → Op K
  op_invalidate : K → Op K
  op_clear : Op K

module _ {C K : Type 0} (ops : LruOps C K CacheEntry) where
  abbrev pub step : Op K → C → C
  step (op_store now k config) c = store ops now k config c
  step (op_get now k) c = (get ops now k c).1
  step (op_invalidate k) c = invalidate ops k c
  step op_clear c = clear ops c

  abbrev pub run : List (Op K) → C → C
  run [] c = c
  run (o ∷ calls) c = run calls (step o c)

module _ {C K : Type 0} (ops : LruOps C K CacheEntry) (lru : IsLru ops max_entries) where
  pub size-get-le : (now : ℕ) (k : K) (c : C) → ops.size (get ops now k c).1 ≤ ops.size c
  unfolding get
  size-get-le now k c =
      let same = lru.size-get k c in
      let less = lru.size-erase k (ops.get k c).1 in
      elim (Option-cases (ops.get k c).0) [
        | inl e ↦ rw (e, get) (omega arith)
        | inr (x, e) ↦ elim (Bool-cases (ltb hours_24 (now - x.stored_at))) [
          | inl old ↦ rw (e, get, old) (omega arith)
          | inr young ↦ rw (e, get, young) (omega arith)
        ]
      ]

  step-size : (o : Op K) (c : C) → size ops c ≤ max_entries → size ops (step ops o c) ≤ max_entries
  unfolding size store invalidate clear
  step-size (op_store now k config) c h = lru.size-put k _ c h
  step-size (op_get now k) c h = omega (arith, size-get-le now k c)
  step-size (op_invalidate k) c h = omega (arith, lru.size-erase k c)
  step-size op_clear c h = omega (arith, lru.size-clear c)

  run-size-le :
      (calls : List (Op K)) (c : C)
      → size ops c ≤ max_entries
      → size ops (run ops calls c) ≤ max_entries
  run-size-le [] c h = h
  run-size-le (o ∷ calls) c h = run-size-le calls (step ops o c) (step-size o c h)

  -- Whatever calls are made, the cache never holds more than 1000 configs.
  pub run-size : (calls : List (Op K)) → size ops (run ops calls ops.empty) ≤ max_entries
  unfolding size
  run-size calls = run-size-le calls ops.empty (omega (arith, lru.size-empty))

-- ===== src/Retry/Cache/Exact.antt =====
-- ech_retry_handler.cc: the cache against a map with times, as long as it has room for every config.
use kiwi_network_patches.Prelude.{
  ℕ, suc, ◌-◌, ◌≤◌, ◌<◌, ◌≡◌, ◌∙◌, ap, inl, inr, Option, none, some, List, [], ◌∷◌, arith,
  Option-cases, dec_le, le→ltb, lt→ltb,
}
use mathlib.Core.Logic.{ite, if_pos, if_neg}
use kiwi_network_patches.Prelude.Bytes.{Bytes}
use kiwi_network_patches.Platform.LruCache.{LruOps, IsLru}
use kiwi_network_patches.Retry.Cache.{
  CacheEntry, hours_24, max_entries, store, get, invalidate, clear,
}
use kiwi_network_patches.Retry.Cache.Peeks.{fresh_only, peek-get_at, peek-get_ne}
use kiwi_network_patches.Retry.Cache.Entries.{
  Op, op_store, op_get, op_invalidate, op_clear, run, get-fresh, get-expired, get-missing,
  size-get-le,
}

abbrev pub config_of : Option CacheEntry → Bytes
config_of none = []
config_of (some e) = e.config

-- How many calls of `Store` there were behind the last `Clear`, with so many before the calls.
abbrev pub count_stores : {K : Type 0} → ℕ → List (Op K) → ℕ
count_stores n [] = n
count_stores n (op_store now k config ∷ calls) = count_stores (suc n) calls
count_stores n (op_clear ∷ calls) = count_stores 0 calls
count_stores n (_ ∷ calls) = count_stores n calls

module _ {K : Type 0} (dec : Discrete K) where
  -- The calls on a map: reading a host forgets its entry if that is too old.
  unfoldable pub timed_step : Op K → (K → Option CacheEntry) → K → Option CacheEntry
  timed_step (op_store now k config) m j =
      ite (dec j k) (some (record { config = config; stored_at = now })) (m j)
  timed_step (op_get now k) m j = ite (dec j k) (fresh_only now (m k)) (m j)
  timed_step (op_invalidate k) m j = ite (dec j k) none (m j)
  timed_step op_clear m j = none

  abbrev pub timed_run : List (Op K) → (K → Option CacheEntry) → K → Option CacheEntry
  timed_run [] m = m
  timed_run (o ∷ calls) m = timed_run calls (timed_step o m)

module _ {C K : Type 0} (ops : LruOps C K CacheEntry) (lru : IsLru ops max_entries)
    (dec : Discrete K) where
  get-fresh_only :
      (now : ℕ) (k : K) (c : C) → (get ops now k c).0 ≡ config_of (fresh_only now (ops.peek k c))
  get-fresh_only now k c = elim (Option-cases (ops.peek k c)) [
    | inl e ↦ rw e (ap (λ r. r.0) (get-missing ops lru now k c e))
    | inr (e, there) ↦ elim (dec_le (now - e.stored_at) hours_24) [
      | yes young ↦
          rw (there, le→ltb _ _ young) (ap (λ r. r.0) (get-fresh ops lru now k c e there young))
      | no old ↦
          let late : hours_24 < now - e.stored_at = omega arith in
          rw (there, lt→ltb _ _ late) (ap (λ r. r.0) (get-expired ops lru now k c e there late))
    ]
  ]

  -- The cache holds what the map holds, if there was room, and no more entries than were stored.
  abbrev Agrees : ℕ → C → (K → Option CacheEntry) → Type 0
  Agrees n c m = (n ≤ max_entries → (j : K) → ops.peek j c ≡ m j) × (ops.size c ≤ n)

  Agrees-store :
      (n now : ℕ) (k : K) (config : Bytes) (c : C) (m : K → Option CacheEntry)
      → Agrees n c m
      → Agrees (suc n) (store ops now k config c) (timed_step dec (op_store now k config) m)
  unfolding timed_step store
  Agrees-store n now k config c m h = (
    λ room j. elim (dec j k) [
      | yes same ↦ rw (if_pos _ same, same) (lru.peek-put k _ c)
      | no other ↦
          rw (if_neg _ other)
            (lru.peek-put_room k j _ c other (omega (arith, h.1)) ∙ h.0 (omega arith) j)
    ],
    omega (arith, h.1, lru.size-put_le k (record { config = config; stored_at = now }) c),
  )

  Agrees-get :
      (n now : ℕ) (k : K) (c : C) (m : K → Option CacheEntry)
      → Agrees n c m
      → Agrees n (get ops now k c).1 (timed_step dec (op_get now k) m)
  unfolding timed_step
  Agrees-get n now k c m h = (
    λ room j. elim (dec j k) [
      | yes same ↦
          rw (if_pos _ same, same) (peek-get_at ops lru now k c ∙ ap (fresh_only now) (h.0 room k))
      | no other ↦ rw (if_neg _ other) (peek-get_ne ops lru now k j c other ∙ h.0 room j)
    ],
    omega (arith, h.1, size-get-le ops lru now k c),
  )

  Agrees-invalidate :
      (n : ℕ) (k : K) (c : C) (m : K → Option CacheEntry)
      → Agrees n c m
      → Agrees n (invalidate ops k c) (timed_step dec (op_invalidate k) m)
  unfolding timed_step invalidate
  Agrees-invalidate n k c m h = (
    λ room j. elim (dec j k) [
      | yes same ↦ rw (if_pos _ same, same) (lru.peek-erase k c)
      | no other ↦ rw (if_neg _ other) (lru.peek-erase_ne k j c other ∙ h.0 room j)
    ],
    omega (arith, h.1, lru.size-erase k c),
  )

  Agrees-clear :
      (c : C) (m : K → Option CacheEntry) → Agrees 0 (clear ops c) (timed_step dec op_clear m)
  unfolding timed_step clear
  Agrees-clear c m = (λ room j. lru.peek-clear j c, omega (arith, lru.size-clear c))

  run-Agrees :
      (calls : List (Op K)) (n : ℕ) (c : C) (m : K → Option CacheEntry)
      → Agrees n c m
      → Agrees (count_stores n calls) (run ops calls c) (timed_run dec calls m)
  run-Agrees [] n c m h = h
  run-Agrees (op_store now k config ∷ calls) n c m h =
      run-Agrees calls (suc n) _ _ (Agrees-store n now k config c m h)
  run-Agrees (op_get now k ∷ calls) n c m h = run-Agrees calls n _ _ (Agrees-get n now k c m h)
  run-Agrees (op_invalidate k ∷ calls) n c m h =
      run-Agrees calls n _ _ (Agrees-invalidate n k c m h)
  run-Agrees (op_clear ∷ calls) n c m h = run-Agrees calls 0 _ _ (Agrees-clear c m)

  -- What the cache is at the start of the process holds nothing.
  empty-Agrees : Agrees 0 ops.empty (λ j. none)
  empty-Agrees = (λ room. lru.peek-empty, omega (arith, lru.size-empty))

  pub peek-timed_run :
      (calls : List (Op K)) (k : K)
      → count_stores 0 calls ≤ max_entries
      → ops.peek k (run ops calls ops.empty) ≡ timed_run dec calls (λ j. none) k
  peek-timed_run calls k room = (run-Agrees calls 0 ops.empty (λ j. none) empty-Agrees).0 room k

  -- After any calls on the cache of a new process, as long as at most 1000 configs were stored since
  -- it was last cleared, `Get` returns exactly what the map with times holds for the host.
  pub get-timed_run :
      (calls : List (Op K)) (now : ℕ) (k : K)
      → count_stores 0 calls ≤ max_entries
      → (get ops now k (run ops calls ops.empty)).0
        ≡ config_of (fresh_only now (timed_run dec calls (λ j. none) k))
  get-timed_run calls now k room =
      get-fresh_only now k _ ∙ ap (λ o. config_of (fresh_only now o)) (peek-timed_run calls k room)

-- ===== src/Retry/Cache/Peeks.antt =====
-- ech_retry_handler.cc: which entries `Get` leaves in the cache.
use kiwi_network_patches.Prelude.{
  ℕ, ◌-◌, ◌<◌, ◌≡◌, ◌≢◌, ◌∙◌, ◌⊎◌, inl, inr, Option, none, some, arith, Option-cases, ltb,
  if◌then◌else◌, dec_le, le→ltb, lt→ltb,
}
use kiwi_network_patches.Platform.LruCache.{LruOps, IsLru}
use kiwi_network_patches.Retry.Cache.{CacheEntry, hours_24, max_entries, get}
use kiwi_network_patches.Retry.Cache.Entries.{get-fresh, get-expired, get-missing}

-- An entry that is at most 24 hours old.
abbrev pub fresh_only : ℕ → Option CacheEntry → Option CacheEntry
fresh_only now none = none
fresh_only now (some e) = if ltb hours_24 (now - e.stored_at) then none else some e

fresh_only-cases :
    (now : ℕ) (o : Option CacheEntry) → (fresh_only now o ≡ none) ⊎ (fresh_only now o ≡ o)
fresh_only-cases now o = ground arith

module _ {C K : Type 0} (ops : LruOps C K CacheEntry) (lru : IsLru ops max_entries) where
  pub peek-get_at :
      (now : ℕ) (k : K) (c : C) → ops.peek k (get ops now k c).1 ≡ fresh_only now (ops.peek k c)
  peek-get_at now k c = elim (Option-cases (ops.peek k c)) [
    | inl e ↦ rw (get-missing ops lru now k c e, lru.peek-get k k c, e)
    | inr (e, there) ↦ elim (dec_le (now - e.stored_at) hours_24) [
      | yes young ↦
          rw (get-fresh ops lru now k c e there young, lru.peek-get k k c, there, le→ltb _ _ young)
      | no old ↦
          let late : hours_24 < now - e.stored_at = omega arith in
          rw (get-expired ops lru now k c e there late, there, lt→ltb _ _ late)
            (lru.peek-erase k (ops.get k c).1)
    ]
  ]

  pub peek-get_ne :
      (now : ℕ) (k j : K) (c : C) → j ≢ k → ops.peek j (get ops now k c).1 ≡ ops.peek j c
  peek-get_ne now k j c other = elim (Option-cases (ops.peek k c)) [
    | inl e ↦ rw (get-missing ops lru now k c e) (lru.peek-get k j c)
    | inr (e, there) ↦ elim (dec_le (now - e.stored_at) hours_24) [
      | yes young ↦ rw (get-fresh ops lru now k c e there young) (lru.peek-get k j c)
      | no old ↦
          rw (get-expired ops lru now k c e there (omega arith))
            (lru.peek-erase_ne k j _ other ∙ lru.peek-get k j c)
    ]
  ]

  -- An entry stays as it is, or goes.
  pub get-keeps :
      (dec : Discrete K) (now : ℕ) (k j : K) (c : C)
      → (ops.peek j (get ops now k c).1 ≡ none) ⊎ (ops.peek j (get ops now k c).1 ≡ ops.peek j c)
  get-keeps dec now k j c = elim (dec j k) [
    | no other ↦ inr (peek-get_ne now k j c other)
    | yes same ↦ elim (fresh_only-cases now (ops.peek k c)) [
      | inl gone ↦ inl (rw same (peek-get_at now k c ∙ gone))
      | inr kept ↦ inr (rw same (peek-get_at now k c ∙ kept))
    ]
  ]

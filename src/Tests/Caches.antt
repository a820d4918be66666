-- ===== src/Tests/Caches.antt =====
-- A cache of at most 1000 entries that moves an entry to the front on a hit and drops the last.
use kiwi_network_patches.Prelude.{
  ℕ, zero, suc, Option-cases, ◌≤◌, ◌≡◌, ◌≢◌, ◌⊎◌, inl, inr, refl, ap, ◌∙◌, ◌+◌, ◌<◌, Option, none,
  some, List, [], ◌∷◌, length, take, ◌==◌, if◌then◌else◌, arith,
}
use kiwi_network_patches.Platform.LruCache.{LruOps, IsLru}
use kiwi_network_patches.Retry.Cache.{CacheEntry, max_entries}

abbrev pub Entries : Type 0
Entries = List (ℕ × CacheEntry)

abbrev find : ℕ → Entries → Option CacheEntry
find k [] = none
find k (x ∷ xs) = if x.0 == k then some x.1 else find k xs

abbrev without : ℕ → Entries → Entries
without k [] = []
without k (x ∷ xs) = if x.0 == k then without k xs else x ∷ without k xs

abbrev without_first : ℕ → Entries → Entries
without_first k [] = []
without_first k (x ∷ xs) = if x.0 == k then xs else x ∷ without_first k xs

abbrev touch : ℕ → Entries → Option CacheEntry × Entries
touch k c = elim (find k c) [ none ↦ (none, c) | some e ↦ (some e, (k, e) ∷ without_first k c) ]

abbrev pub caches : LruOps Entries ℕ CacheEntry
caches = record {
  empty = [];
  put = λ k e c. take 1000 ((k, e) ∷ without k c);
  get = touch;
  erase = without;
  clear = λ c. [];
  size = λ c. length c;
  peek = find;
}

find-without : (k : ℕ) (c : Entries) → find k (without k c) ≡ none
find-without k [] = refl
find-without k (x ∷ c) = ground (arith, find-without k c)

find-without_ne : (k j : ℕ) (c : Entries) → j ≢ k → find j (without k c) ≡ find j c
find-without_ne k j [] ne = refl
find-without_ne k j (x ∷ c) ne = ground (arith, find-without_ne k j c ne)

find-without_first : (k j : ℕ) (c : Entries) → j ≢ k → find j (without_first k c) ≡ find j c
find-without_first k j [] ne = refl
find-without_first k j (x ∷ c) ne = ground (arith, find-without_first k j c ne)

find-touch : (k j : ℕ) (c : Entries) → find j (touch k c).1 ≡ find j c
find-touch k j c = ground (arith, find-without_first k j c)

find-take : (n j : ℕ) (c : Entries) → (find j (take n c) ≡ find j c) ⊎ (find j (take n c) ≡ none)
find-take zero j c = inr refl
find-take (suc n) j [] = inl refl
find-take (suc n) j (x ∷ c) = ground (arith, find-take n j c)

length-without : (k : ℕ) (c : Entries) → length (without k c) ≤ length c
length-without k [] = omega arith
length-without k (x ∷ c) = ground (arith, length-without k c)

length-without_first :
    (k : ℕ) (c : Entries) (e : CacheEntry)
    → find k c ≡ some e
    → suc (length (without_first k c)) ≡ length c
length-without_first k [] e h = absurd (cc)
length-without_first k (x ∷ c) e h = ground (arith, length-without_first k c e)

length-touch : (k : ℕ) (c : Entries) → length (touch k c).1 ≡ length c
length-touch k c = elim (Option-cases (find k c)) [
  | inl e ↦ rw (length, e)
  | inr (x, e) ↦ rw (length, e) (length-without_first k c x e)
]

length-take_le : (n : ℕ) (c : Entries) → length (take n c) ≤ n
length-take_le zero c = omega arith
length-take_le (suc n) [] = omega arith
length-take_le (suc n) (x ∷ c) = omega (arith, length-take_le n c)

find-put_ne :
    (k j : ℕ) (e : CacheEntry) (c : Entries)
    → j ≢ k
    → (find j (take 1000 ((k, e) ∷ without k c)) ≡ find j c)
      ⊎ (find j (take 1000 ((k, e) ∷ without k c)) ≡ none)
find-put_ne k j e c ne = ground (arith, find-take 999 j (without k c), find-without_ne k j c ne)

take-all : (n : ℕ) (c : Entries) → length c ≤ n → take n c ≡ c
take-all zero [] h = refl
take-all zero (x ∷ c) h = absurd (omega arith)
take-all (suc n) [] h = refl
take-all (suc n) (x ∷ c) h = ap (◌∷◌ x) (take-all n c (omega arith))

find-put_room :
    (k j : ℕ) (e : CacheEntry) (c : Entries)
    → j ≢ k
    → length c < 1000
    → find j (take 1000 ((k, e) ∷ without k c)) ≡ find j c
find-put_room k j e c ne room =
    ap (find j) (take-all 1000 ((k, e) ∷ without k c) (omega (arith, length-without k c)))
    ∙ ground (arith, find-without_ne k j c ne)

length-take_short : (n : ℕ) (c : Entries) → length (take n c) ≤ length c
length-take_short zero c = omega arith
length-take_short (suc n) [] = omega arith
length-take_short (suc n) (x ∷ c) = omega (arith, length-take_short n c)

length-put :
    (k : ℕ) (e : CacheEntry) (c : Entries)
    → length (take 1000 ((k, e) ∷ without k c)) ≤ length c + 1
length-put k e c = omega (arith, length-take_short 999 (without k c), length-without k c)

pub caches-IsLru : IsLru caches max_entries
caches-IsLru = record {
  get-peek = λ k c. ground arith;
  peek-get = find-touch;
  peek-put = λ k e c. ground arith;
  peek-put_ne = find-put_ne;
  peek-put_room = find-put_room;
  peek-erase = find-without;
  peek-erase_ne = find-without_ne;
  peek-clear = λ k c. refl;
  peek-empty = λ k. refl;
  size-empty = refl;
  size-clear = λ c. refl;
  size-get = length-touch;
  size-erase = length-without;
  size-put = λ k e c h. length-take_le 1000 ((k, e) ∷ without k c);
  size-put_le = length-put;
}

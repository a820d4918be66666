-- ===== src/Platform/LruCache.antt =====
-- Chromium's `base::LRUCache`, with keys of type `K`, entries of type `E` and states of type `C`.
use kiwi_network_patches.Prelude.{ℕ, ◌+◌, ◌≤◌, ◌<◌, ◌≡◌, ◌≢◌, ◌⊎◌, Option, none, some}

pub record LruOps (C K E : Type 0) : Type 0 where
  pub empty : C
  pub put : K → E → C → C
  -- `Get` moves the entry to the front.
  pub get : K → C → Option E × C
  pub erase : K → C → C
  pub clear : C → C
  pub size : C → ℕ
  -- `Peek` leaves the cache as it is.
  pub peek : K → C → Option E

-- The documented behaviour of a cache with room for `capacity` entries, one at least.
pub record IsLru {C K E : Type 0} (ops : LruOps C K E) (capacity : ℕ) : Type 0 where
  pub get-peek : (k : K) (c : C) → (ops.get k c).0 ≡ ops.peek k c
  pub peek-get : (k j : K) (c : C) → ops.peek j (ops.get k c).1 ≡ ops.peek j c
  pub peek-put : (k : K) (e : E) (c : C) → ops.peek k (ops.put k e c) ≡ some e
  -- Another key keeps its entry, unless that is evicted.
  pub peek-put_ne :
      (k j : K) (e : E) (c : C)
      → j ≢ k
      → (ops.peek j (ops.put k e c) ≡ ops.peek j c) ⊎ (ops.peek j (ops.put k e c) ≡ none)
  -- With room left nothing is evicted.
  pub peek-put_room :
      (k j : K) (e : E) (c : C)
      → j ≢ k
      → ops.size c < capacity
      → ops.peek j (ops.put k e c) ≡ ops.peek j c
  pub peek-erase : (k : K) (c : C) → ops.peek k (ops.erase k c) ≡ none
  pub peek-erase_ne : (k j : K) (c : C) → j ≢ k → ops.peek j (ops.erase k c) ≡ ops.peek j c
  pub peek-clear : (k : K) (c : C) → ops.peek k (ops.clear c) ≡ none
  pub peek-empty : (k : K) → ops.peek k ops.empty ≡ none
  pub size-empty : ops.size ops.empty ≡ 0
  pub size-clear : (c : C) → ops.size (ops.clear c) ≡ 0
  pub size-get : (k : K) (c : C) → ops.size (ops.get k c).1 ≡ ops.size c
  pub size-erase : (k : K) (c : C) → ops.size (ops.erase k c) ≤ ops.size c
  pub size-put :
      (k : K) (e : E) (c : C) → ops.size c ≤ capacity → ops.size (ops.put k e c) ≤ capacity
  pub size-put_le : (k : K) (e : E) (c : C) → ops.size (ops.put k e c) ≤ ops.size c + 1

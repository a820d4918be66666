-- ===== src/Retry/Monitor/Recovery.antt =====
-- ech_retry_handler.cc: how a host leaves and keeps the state in which ECH is to be disabled, and
-- what the events of other hosts, on other threads, have to do with it.
use kiwi_network_patches.Prelude.{
  ℕ, zero, suc, ◌+◌, ◌≤◌, ◌≡◌, ◌≢◌, ◌⊎◌, inl, inr, refl, sym, ◌∙◌, ap, Bool, true, false, List, [],
  ◌∷◌, ◌++◌, length, arith, All, Bool-cases,
}
use mathlib.Core.Logic.{ite, if_pos, if_neg}
use kiwi_network_patches.Retry.Monitor.{should_disable_ech}
use kiwi_network_patches.Retry.Monitor.History.{
  count_true, leading_failures, entry_of, Degraded, Event, handshake, resets, clears, run,
  results_of, run-results_of, should_disable_ech_iff,
}

abbrev pub successes : {K : Type 0} → K → ℕ → List (Event K) → List (Event K)
successes host zero events = events
successes host (suc n) events = handshake host true ∷ successes host n events

-- Two sequences of calls, each in its order, one after the other at every point.
pub data Interleaves {K : Type 0} : List (Event K) → List (Event K) → List (Event K) → Type 0 where
  neither : Interleaves [] [] []
  first :
      {xs ys zs : List (Event K)} (e : Event K)
      → Interleaves xs ys zs
      → Interleaves (e ∷ xs) ys (e ∷ zs)
  second :
      {xs ys zs : List (Event K)} (e : Event K)
      → Interleaves xs ys zs
      → Interleaves xs (e ∷ ys) (e ∷ zs)

module _ {K : Type 0} (host : K) where
  -- An event of another host.
  abbrev pub IsForeign : Event K → Type 0
  IsForeign (handshake k b) = host ≢ k
  IsForeign (resets k) = host ≢ k
  IsForeign clears = ⊥

  -- An event that is no success and no reset of the host.
  abbrev pub NoRelief : Event K → Type 0
  NoRelief (handshake k b) = (host ≢ k) ⊎ (b ≡ false)
  NoRelief (resets k) = host ≢ k
  NoRelief clears = ⊥

Degraded-failure : (bs : List Bool) → Degraded bs → Degraded (false ∷ bs)
Degraded-failure bs (inl h) = inl (omega arith)
Degraded-failure bs (inr h) = inr (omega (arith, h.0), omega (arith, h.1))

module _ {K : Type 0} (dec : Discrete K) (host : K) where
  results_of-foreign :
      (e : Event K) (older : List (Event K))
      → IsForeign host e
      → results_of dec host (e ∷ older) ≡ results_of dec host older
  unfolding results_of
  results_of-foreign (handshake k b) older h = rw (if_neg _ h)
  results_of-foreign (resets k) older h = rw (if_neg _ h)
  results_of-foreign clears older h = absurd h

  results_of-cons :
      (e : Event K) (xs ys : List (Event K))
      → results_of dec host xs ≡ results_of dec host ys
      → results_of dec host (e ∷ xs) ≡ results_of dec host (e ∷ ys)
  unfolding results_of
  results_of-cons (handshake k b) xs ys h = ap (λ r. ite (dec host k) (b ∷ r) r) h
  results_of-cons (resets k) xs ys h = ap (λ r. ite (dec host k) [] r) h
  results_of-cons clears xs ys h = refl

  results_of-Interleaves :
      {xs ys zs : List (Event K)}
      → Interleaves xs ys zs
      → All (IsForeign host) ys
      → results_of dec host zs ≡ results_of dec host xs
  results_of-Interleaves neither h = refl
  results_of-Interleaves (first {xs} {ys} {zs} e i) h =
      results_of-cons e zs xs (results_of-Interleaves i h)
  results_of-Interleaves (second {xs} {ys} {zs} e i) h =
      results_of-foreign e zs h.0 ∙ results_of-Interleaves i h.1

  -- However the calls of two threads interleave, a thread that has only to do with other hosts does
  -- not change the answer for a host.
  pub should_disable_ech-Interleaves :
      {xs ys zs : List (Event K)}
      → Interleaves xs ys zs
      → All (IsForeign host) ys
      → should_disable_ech dec host (run dec zs) ≡ should_disable_ech dec host (run dec xs)
  unfolding should_disable_ech
  should_disable_ech-Interleaves {xs} {ys} {zs} i h =
      let same : run dec zs host ≡ run dec xs host =
        run-results_of dec host zs
        ∙ ap entry_of (results_of-Interleaves i h)
        ∙ sym (run-results_of dec host xs) in
      rw (same, should_disable_ech)

  results_of-successes :
      (n : ℕ) (events : List (Event K))
      → (length (results_of dec host (successes host n events))
          ≡ n + length (results_of dec host events))
        × (count_true (results_of dec host (successes host n events))
            ≡ n + count_true (results_of dec host events))
  unfolding results_of
  results_of-successes zero events = (omega arith, omega arith)
  results_of-successes (suc n) events =
      let (total, good) = results_of-successes n events in
      (rw (if_pos _ refl) (omega arith), rw (if_pos _ refl) (omega arith))

  leading_failures-successes :
      (n : ℕ) (events : List (Event K))
      → leading_failures (results_of dec host (successes host (suc n) events)) ≡ 0
  unfolding results_of
  leading_failures-successes n events = rw (if_pos _ refl)

  -- Every host recovers: after as many successes in a row as it had results, and one at least, ECH
  -- is not to be disabled for it, whatever happened before.
  pub should_disable_ech-successes :
      (n : ℕ) (events : List (Event K))
      → length (results_of dec host events) ≤ suc n
      → should_disable_ech dec host (run dec (successes host (suc n) events)) ≡ false
  should_disable_ech-successes n events enough =
      let later = successes host (suc n) events in
      elim (Bool-cases (should_disable_ech dec host (run dec later))) [
        | inr e ↦ e
        | inl e ↦
            let counts = results_of-successes (suc n) events in
            let none_leading = leading_failures-successes n events in
            elim ((should_disable_ech_iff dec host later).0 e) [
              | inl five ↦ absurd (omega arith)
              | inr few ↦ absurd (omega (arith, few.1, counts.0, counts.1))
            ]
      ]

  Degraded-NoRelief :
      (e : Event K) (older : List (Event K))
      → NoRelief host e
      → Degraded (results_of dec host older)
      → Degraded (results_of dec host (e ∷ older))
  unfolding results_of
  Degraded-NoRelief (handshake k b) older h bad = elim (dec host k) [
    | no other ↦ rw (if_neg _ other) bad
    | yes same ↦ elim h [
      | inl other ↦ absurd (other same)
      | inr failed ↦ rw (if_pos _ same, failed) (Degraded-failure _ bad)
    ]
  ]
  Degraded-NoRelief (resets k) older h bad = rw (if_neg _ h) bad
  Degraded-NoRelief clears older h bad = absurd h

  Degraded-append :
      (later events : List (Event K))
      → All (NoRelief host) later
      → Degraded (results_of dec host events)
      → Degraded (results_of dec host (later ++ events))
  Degraded-append [] events h bad = bad
  Degraded-append (e ∷ later) events h bad =
      Degraded-NoRelief e (later ++ events) h.0 (Degraded-append later events h.1 bad)

  -- Once ECH is to be disabled for a host it stays so, until a success or a reset of the host or a
  -- clearing of all: nothing expires by itself.
  pub should_disable_ech-append :
      (later events : List (Event K))
      → All (NoRelief host) later
      → should_disable_ech dec host (run dec events) ≡ true
      → should_disable_ech dec host (run dec (later ++ events)) ≡ true
  should_disable_ech-append later events h bad =
      (should_disable_ech_iff dec host (later ++ events)).1
        (Degraded-append later events h ((should_disable_ech_iff dec host events).0 bad))

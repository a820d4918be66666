-- ===== src/Prelude/Drain.antt =====
-- The loop `while (CBS_len(&cbs) > 0) { ... }` of the sources. The body works on the unread bytes
-- and on the other variables; `none` from the body is a `break`. `none` from the loop means that
-- the fuel ran out.
use Prim.Native.Nat.{ℕ, zero, suc, ◌<◌}
use mathlib.Core.List.{List, [], ◌∷◌, ◌++◌, foldl}
use mathlib.Core.Logic.{◌⊎◌, inl, inr}
use mathlib.Core.Option.{Option, none, some, some-injective}
use mathlib.Core.Path.{◌≡◌, refl, ◌∙◌, ap, subst}
use native.Mathlib.Omega.{arith}
use kiwi_network_patches.Prelude.Tests.{Option-cases}
use kiwi_network_patches.Prelude.Lists.{length, All, length-append}
use kiwi_network_patches.Prelude.Bytes.{Bytes}

module _ {ℓ} {S : Type ℓ} where
  unfoldable pub drain : (Bytes → S → Option (Bytes × S)) → ℕ → Bytes → S → Option S
  drain body zero s x = none
  drain body (suc fuel) [] x = some x
  drain body (suc fuel) (b ∷ s) x = elim (body (b ∷ s) x) [
    | none ↦ some x
    | some (s', x') ↦ drain body fuel s' x'
  ]

  -- Every round that goes on has read something.
  abbrev pub Consumes : (Bytes → S → Option (Bytes × S)) → Type ℓ
  Consumes body = (s s' : Bytes) (x x' : S) → body s x ≡ some (s', x') → length s' < length s

  -- The loop ends at `s`: nothing is left, or the body breaks.
  abbrev pub Stops : (Bytes → S → Option (Bytes × S)) → Bytes → Type ℓ
  Stops body s = (s ≡ []) ⊎ ((x : S) → body s x ≡ none)

module _ {ℓ} {S : Type ℓ} (body : Bytes → S → Option (Bytes × S)) where
  drain-stop : (s : Bytes) (fuel : ℕ) (x : S) → Stops body s → drain body (suc fuel) s x ≡ some x
  unfolding drain
  drain-stop [] fuel x h = refl
  drain-stop (b ∷ s) fuel x (inl e) = cc
  drain-stop (b ∷ s) fuel x (inr h) = rw (h x, drain)

  drain-step :
      (s s' : Bytes) (fuel : ℕ) (x x' : S)
      → 0 < length s
      → body s x ≡ some (s', x')
      → drain body (suc fuel) s x ≡ drain body fuel s' x'
  unfolding drain
  drain-step [] s' fuel x x' h e = absurd (omega arith)
  drain-step (b ∷ s) s' fuel x x' h e = rw (e, drain)

  -- With more fuel than bytes the loop ends.
  pub drain_total :
      (fuel : ℕ) (s : Bytes) (x : S)
      → Consumes body
      → length s < fuel
      → (y : S) × (drain body fuel s x ≡ some y)
  unfolding drain
  drain_total zero s x c h = absurd (omega arith)
  drain_total (suc fuel) [] x c h = (x, refl)
  drain_total (suc fuel) (b ∷ s) x c h = elim (Option-cases (body (b ∷ s) x)) [
    | inl e ↦ (x, rw (e, drain))
    | inr (p, e) ↦
        let less = c (b ∷ s) p.0 x p.1 e in
        let (y, done) = drain_total fuel p.0 p.1 c (omega arith) in (y, rw (e, drain) done)
  ]

  -- What every round keeps, the loop keeps.
  pub drain_inv {κ} :
      (P : S → Type κ)
      → ((s s' : Bytes) (x x' : S) → P x → body s x ≡ some (s', x') → P x')
      → (fuel : ℕ) (s : Bytes) (x : S) {y : S} → P x
      → drain body fuel s x ≡ some y
      → P y
  unfolding drain
  drain_inv P keep zero s x p e = absurd (cc)
  drain_inv P keep (suc fuel) [] x {y} p e = subst P (some-injective _ _ e) p
  drain_inv P keep (suc fuel) (b ∷ s) x {y} p e = elim (Option-cases (body (b ∷ s) x)) [
    | inl stop ↦ subst P (some-injective _ _ (rw (stop, drain) at e)) p
    | inr (q, step) ↦
        drain_inv P keep fuel q.0 q.1 (keep (b ∷ s) q.0 x q.1 p step) (rw (step, drain) at e)
  ]

-- A loop that reads a sequence of items: the body reads the item that stands in front.
module _ {ℓ} {S : Type ℓ} (body : Bytes → S → Option (Bytes × S)) {I : Type 0} (encode : I → Bytes)
    (Fits : I → Type 0) (act : S → I → S) where
  pub record Framing : Type ℓ where
    pub nonempty : (i : I) → Fits i → 0 < length (encode i)
    pub reads :
        (i : I) (rest : Bytes) (x : S) → Fits i → body (encode i ++ rest) x ≡ some (rest, act x i)

abbrev pub encode_all : {I : Type 0} → (I → Bytes) → List I → Bytes → Bytes
encode_all encode [] tail = tail
encode_all encode (i ∷ items) tail = encode i ++ encode_all encode items tail

module _ {ℓ} {S : Type ℓ} {body : Bytes → S → Option (Bytes × S)} {I : Type 0} {encode : I → Bytes}
    {Fits : I → Type 0} {act : S → I → S} (framing : Framing body encode Fits act) where
  -- On a sequence of items the loop acts on each in turn, and stops behind the last.
  pub drain-encode_all :
      (items : List I) (tail : Bytes) (fuel : ℕ) (x : S)
      → All Fits items
      → Stops body tail
      → length (encode_all encode items tail) < fuel
      → drain body fuel (encode_all encode items tail) x ≡ some (foldl act x items)
  drain-encode_all items tail zero x ok stop h = absurd (omega arith)
  drain-encode_all [] tail (suc fuel) x ok stop h = drain-stop body tail fuel x stop
  drain-encode_all (i ∷ items) tail (suc fuel) x ok stop h =
      let front = framing.nonempty i ok.0 in
      let total = length-append (encode i) (encode_all encode items tail) in
      drain-step body _ _ fuel x _ (omega arith) (framing.reads i _ x ok.0)
      ∙ drain-encode_all items tail fuel (act x i) ok.1 stop (omega arith)

-- Every input is a sequence of items with a rest at which a loop stops, provided that an input at
-- which it does not stop begins with an item.
pub decompose {κ μ} :
    {I : Type 0} (encode : I → Bytes) (Fits : I → Type 0) (Stop : Bytes → Type μ)
    (P : Bytes → Type κ)
    → ((i : I) → Fits i → 0 < length (encode i))
    → ((s : Bytes)
        → P s
        → Stop s ⊎ ((i : I) × (rest : Bytes) × (s ≡ encode i ++ rest) × Fits i × P rest))
    → (fuel : ℕ) (s : Bytes) → P s
    → length s < fuel
    → (items : List I) × (tail : Bytes) × (s ≡ encode_all encode items tail)
      × All Fits items
      × Stop tail
decompose encode Fits Stop P nonempty look zero s p h = absurd (omega arith)
decompose encode Fits Stop P nonempty look (suc fuel) s p h = elim (look s p) [
  | inl stop ↦ ([], s, refl, tt, stop)
  | inr (i, rest, split, ok, q) ↦
      let front = nonempty i ok in
      let total = ap length split ∙ length-append (encode i) rest in
      let (items, tail, eq, all, stop) =
        decompose encode Fits Stop P nonempty look fuel rest q (omega arith) in
      (i ∷ items, tail, split ∙ ap (λ r. encode i ++ r) eq, (ok, all), stop)
]

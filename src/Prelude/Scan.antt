-- ===== src/Prelude/Scan.antt =====
-- Loops of the sources over the positions of a string, `while (i < n) { ...; i += k; }`. The body
-- returns the next position and the other variables, or `none` for a `break`. `none` from the
-- loop means that the fuel ran out.
use Prim.Native.Nat.{ℕ, zero, suc, ◌+◌, ◌<◌}
use mathlib.Core.Bool.{Bool, true, false}
use mathlib.Core.List.{List, [], ◌∷◌, ◌++◌, foldl, append_assoc}
use mathlib.Core.Logic.{◌⊎◌}
use mathlib.Core.Option.{Option, none, some}
use mathlib.Core.Path.{◌≡◌, ◌∙◌}
use native.Mathlib.Omega.{arith}
use kiwi_network_patches.Prelude.Lists.{length, All, length-append}
use kiwi_network_patches.Prelude.Bytes.{Bytes}
use kiwi_network_patches.Prelude.Drain.{encode_all}

unfoldable pub scan {ℓ} :
    {S : Type ℓ} → (ℕ → Bool) → (ℕ → S → Option (ℕ × S)) → ℕ → ℕ → S → Option S
scan test body zero i x = none
scan test body (suc fuel) i x = elim (test i) [
  | false ↦ some x
  | true ↦ elim (body i x) [ none ↦ some x | some (i', x') ↦ scan test body fuel i' x' ]
]

module _ {ℓ} {S : Type ℓ} (test : ℕ → Bool) (body : ℕ → S → Option (ℕ × S)) (fuel i : ℕ)
    (x : S) where
  scan-step :
      (i' : ℕ) (x' : S)
      → test i ≡ true
      → body i x ≡ some (i', x')
      → scan test body (suc fuel) i x ≡ scan test body fuel i' x'
  unfolding scan
  scan-step i' x' t e = ground arith

  scan-stop : (test i ≡ false) ⊎ (body i x ≡ none) → scan test body (suc fuel) i x ≡ some x
  unfolding scan
  scan-stop h = ground arith

module _ {ℓ} {S : Type ℓ} (test : Bytes → ℕ → Bool) (body : Bytes → ℕ → S → Option (ℕ × S))
    {I : Type 0} (encode : I → Bytes) (Fits : I → Type 0) (Stop : Bytes → Type 0)
    (act : S → I → S) where
  -- At an item the body acts and moves behind it; at a rest the loop ends.
  pub record Scanning : Type ℓ where
    pub nonempty : (i : I) → Fits i → 0 < length (encode i)
    pub goes_on :
        (pre : Bytes) (i : I) (rest : Bytes)
        → Fits i
        → test (pre ++ (encode i ++ rest)) (length pre) ≡ true
    pub reads :
        (pre : Bytes) (i : I) (rest : Bytes) (x : S)
        → Fits i
        → body (pre ++ (encode i ++ rest)) (length pre) x
          ≡ some (length pre + length (encode i), act x i)
    pub stops :
        (pre tail : Bytes) (x : S)
        → Stop tail
        → (test (pre ++ tail) (length pre) ≡ false) ⊎ (body (pre ++ tail) (length pre) x ≡ none)

module _ {ℓ} {S : Type ℓ} {test : Bytes → ℕ → Bool} {body : Bytes → ℕ → S → Option (ℕ × S)}
    {I : Type 0} {encode : I → Bytes} {Fits : I → Type 0} {Stop : Bytes → Type 0} {act : S → I → S}
    (scanning : Scanning test body encode Fits Stop act) where
  scan-from :
      (items : List I) (pre tail : Bytes) (fuel : ℕ) (x : S)
      → All Fits items
      → Stop tail
      → length (encode_all encode items tail) < fuel
      → scan
          (test (pre ++ encode_all encode items tail))
          (body (pre ++ encode_all encode items tail))
          fuel
          (length pre)
          x
        ≡ some (foldl act x items)
  scan-from items pre tail zero x ok stop h = absurd (omega arith)
  scan-from [] pre tail (suc fuel) x ok stop h =
      scan-stop _ _ fuel _ x (scanning.stops pre tail x stop)
  scan-from (i ∷ items) pre tail (suc fuel) x ok stop h =
      let rest = encode_all encode items tail in
      let front = scanning.nonempty i ok.0 in
      let total = length-append (encode i) rest in
      scan-step _ _ fuel _ x _ _ (scanning.goes_on pre i rest ok.0)
        (scanning.reads pre i rest x ok.0)
      ∙ rw (← append_assoc pre (encode i) rest, ← length-append pre (encode i))
          (scan-from items (pre ++ encode i) tail fuel (act x i) ok.1 stop (omega arith))

  -- On a sequence of items the loop acts on each in turn, and stops behind the last.
  pub scan-encode_all :
      (items : List I) (tail : Bytes) (fuel : ℕ) (x : S)
      → All Fits items
      → Stop tail
      → length (encode_all encode items tail) < fuel
      → scan (test (encode_all encode items tail)) (body (encode_all encode items tail)) fuel 0 x
        ≡ some (foldl act x items)
  scan-encode_all items tail = scan-from items [] tail

-- ===== src/Prelude/Bytes.antt =====
-- `std::string` and buffers of the sources: lists of bytes, each a number below 256.
use Prim.Native.Nat.{ℕ, zero, suc, ◌+◌, ◌<◌, ◌/◌, ◌%◌}
use Prim.Native.Char.{code}
use Prim.Native.String.{String}
use mathlib.Core.Bool.{Bool, true, false, ◌&&◌}
use mathlib.Core.List.{List, [], ◌∷◌, ◌++◌}
use mathlib.Core.Logic.{◌↔◌}
use mathlib.Core.Path.{◌≡◌, refl, ap, ◌∙◌}
use native.Mathlib.Omega.{arith}
use kiwi_network_patches.Prelude.Tests.{◌==◌}
use kiwi_network_patches.Prelude.Lists.{All, length, take, drop}

abbrev pub Bytes : Type 0
Bytes = List ℕ

abbrev pub IsByte : ℕ → Type 0
IsByte b = b < 256

abbrev pub AreBytes : Bytes → Type 0
AreBytes = All IsByte

-- The bytes of an ASCII literal.
abbrev pub text : String → Bytes
text String.[] = []
text (String.◌∷◌ c s) = code c ∷ text s

-- `operator==` on strings.
abbrev pub eqs : Bytes → Bytes → Bool
eqs [] [] = true
eqs (x ∷ xs) (y ∷ ys) = x == y && eqs xs ys
eqs _ _ = false

-- `s.empty()`.
abbrev pub is_empty : Bytes → Bool
is_empty [] = true
is_empty (_ ∷ _) = false

pub eqs_iff : (a b : Bytes) → (eqs a b ≡ true) ↔ (a ≡ b)
eqs_iff (x ∷ a) (y ∷ b) = ground (arith, eqs_iff a b)
eqs_iff _ _ = ground arith

-- `s[i]`; the sources read only inside the string.
abbrev pub byte_at : Bytes → ℕ → ℕ
byte_at [] i = 0
byte_at (x ∷ xs) zero = x
byte_at (x ∷ xs) (suc i) = byte_at xs i

-- `s.substr(i, n)`.
abbrev pub substr : Bytes → ℕ → ℕ → Bytes
substr s i n = take n (drop i s)

pub byte_at-append : (pre : Bytes) (b : ℕ) (s : Bytes) → byte_at (pre ++ b ∷ s) (length pre) ≡ b
byte_at-append [] b s = refl
byte_at-append (x ∷ pre) b s = byte_at-append pre b s

pub drop-append_plus : (pre s : Bytes) (n : ℕ) → drop (length pre + n) (pre ++ s) ≡ drop n s
drop-append_plus [] s n = ap (λ k. drop k s) {y = n} (omega arith)
drop-append_plus (x ∷ pre) s n =
    ap (λ k. drop k (x ∷ (pre ++ s))) {y = suc (length pre + n)} (omega arith)
    ∙ drop-append_plus pre s n

-- The two low bytes of a number, in big-endian order.
abbrev pub u16 : ℕ → Bytes
u16 n = n / 256 % 256 ∷ n % 256 ∷ []

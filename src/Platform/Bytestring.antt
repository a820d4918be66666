-- ===== src/Platform/Bytestring.antt =====
-- BoringSSL's CBS (`openssl/bytestring.h`). A CBS is the list of the bytes that it still covers,
-- `CBS_len` is its length. A reader returns what it read and the CBS behind it, or `none` where
-- the C function returns 0.
use kiwi_network_patches.Prelude.{
  ℕ, ◌+◌, ◌*◌, ◌≤◌, ◌<◌, ◌≡◌, Option, none, some, [], ◌∷◌, length, take, drop,
}
use kiwi_network_patches.Prelude.Bytes.{Bytes}

pub record Cbs : Type 0 where
  pub get_u8 : Bytes → Option (ℕ × Bytes)
  pub get_u16 : Bytes → Option (ℕ × Bytes)
  pub get_bytes : Bytes → ℕ → Option (Bytes × Bytes)
  pub get_u16_length_prefixed : Bytes → Option (Bytes × Bytes)

-- The documented behaviour: big-endian integers, and failure exactly where too few bytes are left.
pub record IsCbs (c : Cbs) : Type 0 where
  pub get_u8-nil : c.get_u8 [] ≡ none
  pub get_u8-cons : (a : ℕ) (s : Bytes) → c.get_u8 (a ∷ s) ≡ some (a, s)
  pub get_u16-nil : c.get_u16 [] ≡ none
  pub get_u16-one : (a : ℕ) → c.get_u16 (a ∷ []) ≡ none
  pub get_u16-cons : (a b : ℕ) (s : Bytes) → c.get_u16 (a ∷ b ∷ s) ≡ some (a * 256 + b, s)
  pub get_bytes-short : (s : Bytes) (n : ℕ) → length s < n → c.get_bytes s n ≡ none
  pub get_bytes-enough :
      (s : Bytes) (n : ℕ) → n ≤ length s → c.get_bytes s n ≡ some (take n s, drop n s)
  pub get_u16_length_prefixed-nil : c.get_u16_length_prefixed [] ≡ none
  pub get_u16_length_prefixed-one : (a : ℕ) → c.get_u16_length_prefixed (a ∷ []) ≡ none
  pub get_u16_length_prefixed-short :
      (a b : ℕ) (s : Bytes) → length s < a * 256 + b → c.get_u16_length_prefixed (a ∷ b ∷ s) ≡ none
  pub get_u16_length_prefixed-enough :
      (a b : ℕ) (s : Bytes)
      → a * 256 + b ≤ length s
      → c.get_u16_length_prefixed (a ∷ b ∷ s) ≡ some (take (a * 256 + b) s, drop (a * 256 + b) s)

-- ===== src/Prelude/Tlv.antt =====
-- Items of two numbers of 16 bits and a value: a tag, the length of the value, the value. The
-- SvcParams of a record and the ECHConfigs of a list have this form.
use Prim.Native.Nat.{ℕ, suc, ◌+◌, ◌*◌, ◌/◌, ◌%◌, ◌<◌}
use mathlib.Core.List.{List, [], ◌∷◌, ◌++◌}
use mathlib.Core.Logic.{◌⊎◌, inl, inr}
use mathlib.Core.Path.{◌≡◌}
use native.Mathlib.Decide.{dec_lt}
use native.Mathlib.Omega.{arith}
use kiwi_network_patches.Prelude.Lists.{
  length, take, drop, length-take, take-append-drop, All, All-take, All-drop,
}
use kiwi_network_patches.Prelude.Bytes.{Bytes, IsByte, AreBytes, u16}
use kiwi_network_patches.Prelude.Drain.{encode_all, decompose}

pub record Tlv : Type 0 where
  pub tag : ℕ
  pub value : Bytes

-- The wire form: key, length of the value, value.
abbrev pub encode_tlv : Tlv → Bytes
encode_tlv p = u16 p.tag ++ (u16 (length p.value) ++ p.value)

pub record FitsWire (p : Tlv) : Type 0 where
  pub tag_fits : p.tag < 65536
  pub length_fits : length p.value < 65536
  pub value_bytes : AreBytes p.value

-- What ends a sequence of items: fewer than four bytes, or a value that is cut off.
pub data TlvEnd : Bytes → Type 0 where
  few : {s : Bytes} → length s < 4 → TlvEnd s
  cut_value : {k k' n n' : ℕ} {s : Bytes} → length s < n * 256 + n' → TlvEnd (k ∷ k' ∷ n ∷ n' ∷ s)

look_tlv-split :
    (k k' n n' : ℕ) (s : Bytes)
    → k < 256
    → k' < 256
    → n < 256
    → n' < 256
    → length (take (n * 256 + n') s) ≡ n * 256 + n'
    → k ∷ k' ∷ n ∷ n' ∷ s
      ≡ encode_tlv (record { tag = k * 256 + k'; value = take (n * 256 + n') s })
        ++ drop (n * 256 + n') s
look_tlv-split k k' n n' s b0 b1 b2 b3 all =
    let e0 : (k * 256 + k') / 256 % 256 ≡ k = omega arith in
    let e1 : (k * 256 + k') % 256 ≡ k' = omega arith in
    let e2 : (n * 256 + n') / 256 % 256 ≡ n = omega arith in
    let e3 : (n * 256 + n') % 256 ≡ n' = omega arith in
    rw (all, e0, e1, e2, e3, take-append-drop (n * 256 + n') s)

look_tlv :
    (s : Bytes)
    → AreBytes s
    → TlvEnd s
      ⊎ ((p : Tlv) × (rest : Bytes) × (s ≡ encode_tlv p ++ rest) × FitsWire p × AreBytes rest)
look_tlv (k ∷ k' ∷ n ∷ n' ∷ s) h = elim (dec_lt (length s) (n * 256 + n')) [
  | yes less ↦ inl (cut_value less)
  | no enough ↦
      let len = n * 256 + n' in
      let all : length (take len s) ≡ len = length-take len s (omega arith) in
      let b0 : k < 256 = h.0 in
      let b1 : k' < 256 = h.1.0 in
      let b2 : n < 256 = h.1.1.0 in
      let b3 : n' < 256 = h.1.1.1.0 in
      let p : Tlv = record { tag = k * 256 + k'; value = take len s } in
      inr (
        p,
        drop len s,
        look_tlv-split k k' n n' s b0 b1 b2 b3 all,
        record {
          tag_fits = omega arith;
          length_fits = omega arith;
          value_bytes = All-take IsByte len s h.1.1.1.1;
        },
        All-drop IsByte len s h.1.1.1.1,
      )
]
look_tlv [] h = inl (few (omega arith))
look_tlv (_ ∷ []) h = inl (few (omega arith))
look_tlv (_ ∷ _ ∷ []) h = inl (few (omega arith))
look_tlv (_ ∷ _ ∷ _ ∷ []) h = inl (few (omega arith))

-- Every input is a sequence of items with an end.
pub decompose_tlvs :
    (s : Bytes)
    → AreBytes s
    → (ps : List Tlv) × (tail : Bytes) × (s ≡ encode_all encode_tlv ps tail)
      × All FitsWire ps
      × TlvEnd tail
decompose_tlvs s h =
    decompose encode_tlv FitsWire TlvEnd AreBytes (λ p ok. omega arith) look_tlv (suc (length s)) s
      h (omega arith)

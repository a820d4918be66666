-- ===== src/Dns/Parser/ServiceName.antt =====
-- host_resolver_manager.cc: what `ReadServiceName` reads.
use kiwi_network_patches.Prelude.{
  ℕ, zero, suc, ◌<◌, ◌≡◌, refl, sym, ◌∙◌, false, not, List, [], ◌∷◌, ◌++◌, length, take, drop, ◌==◌,
  if◌then◌else◌, All, foldl, arith, ◌⊎◌, inl, inr, length-append, length-take, take-append,
  drop-append, take-append-drop, append_assoc, append-nil, All-drop, dec_lt,
}
use kiwi_network_patches.Prelude.Bytes.{Bytes, IsByte, AreBytes, is_empty, text}
use kiwi_network_patches.Prelude.Drain.{encode_all, decompose}
use kiwi_network_patches.Prelude.Outcome.{Outcome, out_of_fuel, failed, done}
use kiwi_network_patches.Platform.Bytestring.{Cbs, IsCbs}
use kiwi_network_patches.Dns.Parser.{read_labels, read_service_name}

-- A label behind its length byte.
abbrev pub encode_label : Bytes → Bytes
encode_label l = length l ∷ l

abbrev pub IsLabel : Bytes → Type 0
IsLabel l = (0 < length l) × (length l < 256)

-- The name so far, with one more label.
abbrev pub add_label : Bytes → Bytes → Bytes
add_label name l = (if not (is_empty name) then name ++ b'.' ∷ [] else name) ++ l

-- What follows the labels: the root label, the end of the record, or a label that is cut off.
pub data NameEnd : Bytes → Type 0 where
  root : (rest : Bytes) → NameEnd (0 ∷ rest)
  cut_name : NameEnd []
  cut_label : {len : ℕ} {s : Bytes} → length s < len → NameEnd (len ∷ s)

-- How the name ends.
abbrev pub name_outcome : {s : Bytes} → NameEnd s → Bytes → Outcome (Bytes × Bytes)
name_outcome (root rest) name = done (name, rest)
name_outcome cut_name name = done (name, [])
name_outcome (cut_label h) name = failed

module _ (cbs : Cbs) (laws : IsCbs cbs) where
  read_labels-step :
      (l rest : Bytes) (fuel : ℕ) (name : Bytes)
      → 0 < length l
      → read_labels cbs (suc fuel) (encode_label l ++ rest) name
        ≡ read_labels cbs fuel rest (add_label name l)
  unfolding read_labels
  read_labels-step l rest fuel name h =
      let more : (length l == 0) ≡ false = ground arith in
      let room =
        laws.get_bytes-enough (l ++ rest) (length l) (omega (arith, length-append l rest)) in
      rw (
        laws.get_u8-cons (length l) (l ++ rest),
        more,
        room,
        take-append l rest,
        drop-append l rest,
        read_labels,
      )

  read_labels-end :
      {s : Bytes} (fuel : ℕ) (name : Bytes) (end : NameEnd s)
      → read_labels cbs (suc fuel) s name ≡ name_outcome end name
  unfolding read_labels
  read_labels-end fuel name (root rest) = rw (laws.get_u8-cons 0 rest, read_labels)
  read_labels-end fuel name cut_name = refl
  read_labels-end fuel name (cut_label {len} {s} h) =
      let more : (len == 0) ≡ false = ground arith in
      rw (laws.get_u8-cons len s, more, laws.get_bytes-short s len h, read_labels)

  read_labels-encode :
      (labels : List Bytes) (fuel : ℕ) (name : Bytes) {s : Bytes} (end : NameEnd s)
      → All IsLabel labels
      → length (encode_all encode_label labels s) < fuel
      → read_labels cbs fuel (encode_all encode_label labels s) name
        ≡ name_outcome end (foldl add_label name labels)
  read_labels-encode labels zero name end ok h = absurd (omega arith)
  read_labels-encode [] (suc fuel) name end ok h = read_labels-end fuel name end
  read_labels-encode (l ∷ labels) (suc fuel) name {s} end ok h =
      let total = length-append l (encode_all encode_label labels s) in
      read_labels-step l _ fuel name ok.0.0
      ∙ read_labels-encode labels fuel (add_label name l) end ok.1 (omega arith)

-- The labels with a dot in front of each.
abbrev pub dots : List Bytes → Bytes
dots [] = []
dots (l ∷ labels) = b'.' ∷ (l ++ dots labels)

-- The text of a name: "." for the root, else the labels with dots between them.
abbrev pub dotted : List Bytes → Bytes
dotted [] = text "."
dotted (l ∷ labels) = l ++ dots labels

foldl-add_label :
    (labels : List Bytes) (name : Bytes)
    → 0 < length name
    → foldl add_label name labels ≡ name ++ dots labels
foldl-add_label [] name h = sym (append-nil name)
foldl-add_label (l ∷ labels) [] h = absurd (omega arith)
foldl-add_label (l ∷ labels) (b ∷ name) h =
    foldl-add_label labels _ (omega arith) ∙ simp append_assoc

target_text :
    (labels : List Bytes)
    → All IsLabel labels
    → (if is_empty (foldl add_label [] labels) then text "." else foldl add_label [] labels)
      ≡ dotted labels
target_text [] ok = refl
target_text ([] ∷ labels) ok = absurd (omega arith)
target_text ((b ∷ l) ∷ labels) ok = rw (foldl-add_label labels (b ∷ l) (omega arith))

module _ (cbs : Cbs) (laws : IsCbs cbs) where
  -- On a sequence of labels and whatever ends the name, the dotted text of the labels and the
  -- bytes behind the name are returned; a label that is cut off is an error.
  pub read_service_name-encode :
      (labels : List Bytes) {s : Bytes} (end : NameEnd s)
      → All IsLabel labels
      → read_service_name cbs (encode_all encode_label labels s) ≡ name_outcome end (dotted labels)
  unfolding read_service_name
  read_service_name-encode labels {s} end ok =
      let fuel = suc (length (encode_all encode_label labels s)) in
      let run = read_labels-encode cbs laws labels fuel [] end ok (omega arith) in
      rw (run, read_service_name) (finish end)
    where
      finish :
          {s : Bytes} (end : NameEnd s)
          → elim (name_outcome end (foldl add_label [] labels)) [
            | out_of_fuel ↦ out_of_fuel
            | failed ↦ failed
            | done (name, rest) ↦ done (if is_empty name then text "." else name, rest)
          ]
            ≡ name_outcome end (dotted labels)
      finish (root rest) = rw (target_text labels ok)
      finish cut_name = rw (target_text labels ok)
      finish (cut_label h) = refl

look_name :
    (s : Bytes)
    → AreBytes s
    → NameEnd s
      ⊎ ((l : Bytes) × (rest : Bytes) × (s ≡ encode_label l ++ rest) × IsLabel l × AreBytes rest)
look_name [] h = inl cut_name
look_name (zero ∷ s) h = inl (root s)
look_name (suc n ∷ s) h = elim (dec_lt (length s) (suc n)) [
  | yes less ↦ inl (cut_label less)
  | no enough ↦
      let all = length-take (suc n) s (omega arith) in
      inr (
        take (suc n) s,
        drop (suc n) s,
        rw (all, take-append-drop (suc n) s),
        (omega arith, omega arith),
        All-drop IsByte (suc n) s h.1,
      )
]

-- Every input is a sequence of labels with an end of the name.
pub decompose_name :
    (s : Bytes)
    → AreBytes s
    → (labels : List Bytes) × (tail : Bytes) × (s ≡ encode_all encode_label labels tail)
      × All IsLabel labels
      × NameEnd tail
decompose_name s h =
    decompose encode_label IsLabel NameEnd AreBytes (λ l ok. omega arith) look_name (suc (length s))
      s h (omega arith)

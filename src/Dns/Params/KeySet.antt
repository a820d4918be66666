-- ===== src/Dns/Params/KeySet.antt =====
-- host_resolver_manager.cc: `mandatory_keys` as a set. The model holds its members in a list; here
-- lists with the same members are one set.
use kiwi_network_patches.Prelude.{
  ◌≡◌, refl, sym, ◌∙◌, Bool, true, List, [], ◌∷◌, arith, Bool-cases, inl, inr,
}
use mathlib.Core.Quot
use mathlib.Core.Bool.{Bool-set}
use mathlib.Core.Quot.{Quot, Quot-set}
use kiwi_network_patches.Prelude.Bytes.{Bytes, eqs_iff}
use kiwi_network_patches.Dns.Params.{
  contains, supported_keys, all_supported, check_mandatory_params,
}
use kiwi_network_patches.Dns.Record.{HttpsRecordResult}
use kiwi_network_patches.Dns.Params.Mandatory.{contains-supported}

abbrev pub SameMembers : List Bytes → List Bytes → Type 0
SameMembers keys keys' = (k : Bytes) → contains keys k ≡ contains keys' k

abbrev pub KeySet : Type 0
KeySet = Quot SameMembers

all_supported_of_members :
    (keys : List Bytes)
    → ((k : Bytes) → contains keys k ≡ true → contains supported_keys k ≡ true)
    → all_supported keys ≡ true
unfolding all_supported
all_supported_of_members [] h = refl
all_supported_of_members (key ∷ keys) h =
    let here = h key (ground (arith, eqs_iff key key)) in
    let rest = all_supported_of_members keys (λ k c. h k (ground arith)) in rw (here, rest)

all_supported-SameMembers :
    (xs ys : List Bytes) → SameMembers xs ys → all_supported xs ≡ true → all_supported ys ≡ true
all_supported-SameMembers xs ys h ok =
    all_supported_of_members ys (λ k c. contains-supported xs k (h k ∙ c) ok)

pub all_supported-same :
    (xs ys : List Bytes) → SameMembers xs ys → all_supported xs ≡ all_supported ys
all_supported-same xs ys h = elim (Bool-cases (all_supported xs)) [
  | inl e ↦ e ∙ sym (all_supported-SameMembers xs ys h e)
  | inr e ↦ elim (Bool-cases (all_supported ys)) [
    | inl f ↦ all_supported-SameMembers ys xs (λ k. sym (h k)) f ∙ sym f
    | inr f ↦ e ∙ sym f
  ]
]

-- The loop of `CheckMandatoryParams` on a set: the order of the walk does not matter.
unfoldable pub supported : KeySet → Bool
supported = Quot.lift Bool-set all_supported all_supported-same

check_mandatory_params-supported :
    (r : HttpsRecordResult) → check_mandatory_params r ≡ supported (Quot.mk r.mandatory_keys)
unfolding check_mandatory_params supported
check_mandatory_params-supported r = refl

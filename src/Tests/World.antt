-- ===== src/Tests/World.antt =====
-- A CBS, the numbers of the DNS protocol, environments and a resolve context that have the
-- documented behaviour.
use kiwi_network_patches.Prelude.{
  ℕ, ◌+◌, ◌*◌, ◌≡◌, ◌≢◌, refl, Bool, true, false, ◌||◌, ◌&&◌, Option, none, some, List, [], ◌∷◌,
  length, take, drop, ltb, ◌==◌, All, if◌then◌else◌, arith, lt→ltb, le→ltb, ℕ_discrete,
}
use kiwi_network_patches.Prelude.Bytes.{Bytes, AreBytes, text}
use kiwi_network_patches.Platform.Features.{FeatureList}
use kiwi_network_patches.Prelude.Tlv.{Tlv, FitsWire}
use kiwi_network_patches.Platform.Bytestring.{Cbs, IsCbs}
use kiwi_network_patches.Platform.DnsProtocol.{DnsProtocol, IsAddressCheck}
use kiwi_network_patches.Platform.ResolveContext.{ContextOps, IsContext}
use kiwi_network_patches.Platform.BoringSsl.{Call, set_ech_keys, SslEnv}
use mathlib.Core.Logic.{ite, if_pos, if_neg}

-- A test for `AreBytes`.
abbrev pub are_bytes : Bytes → Bool
are_bytes [] = true
are_bytes (b ∷ s) = ltb b 256 && are_bytes s

pub are_bytes-AreBytes : (s : Bytes) → are_bytes s ≡ true → AreBytes s
are_bytes-AreBytes [] h = tt
are_bytes-AreBytes (b ∷ s) h = (ground arith, are_bytes-AreBytes s (ground arith))

abbrev pub fit_wire : List Tlv → Bool
fit_wire [] = true
fit_wire (p ∷ ps) =
    ltb p.tag 65536 && (ltb (length p.value) 65536 && (are_bytes p.value && fit_wire ps))

pub fit_wire-FitsWire : (ps : List Tlv) → fit_wire ps ≡ true → All FitsWire ps
fit_wire-FitsWire [] h = tt
fit_wire-FitsWire (p ∷ ps) h = (
  record {
    tag_fits = ground arith;
    length_fits = ground arith;
    value_bytes = are_bytes-AreBytes p.value (ground arith);
  },
  fit_wire-FitsWire ps (ground arith),
)

abbrev list_get_u8 : Bytes → Option (ℕ × Bytes)
list_get_u8 [] = none
list_get_u8 (a ∷ s) = some (a, s)

abbrev list_get_u16 : Bytes → Option (ℕ × Bytes)
list_get_u16 (a ∷ b ∷ s) = some (a * 256 + b, s)
list_get_u16 _ = none

abbrev list_get_bytes : Bytes → ℕ → Option (Bytes × Bytes)
list_get_bytes s n = if ltb (length s) n then none else some (take n s, drop n s)

abbrev list_get_prefixed : Bytes → Option (Bytes × Bytes)
list_get_prefixed (a ∷ b ∷ s) = list_get_bytes s (a * 256 + b)
list_get_prefixed _ = none

abbrev pub list_cbs : Cbs
list_cbs = record {
  get_u8 = list_get_u8;
  get_u16 = list_get_u16;
  get_bytes = list_get_bytes;
  get_u16_length_prefixed = list_get_prefixed;
}

pub list_cbs-IsCbs : IsCbs list_cbs
list_cbs-IsCbs = record {
  get_u8-nil = refl;
  get_u8-cons = λ a s. refl;
  get_u16-nil = refl;
  get_u16-one = λ a. refl;
  get_u16-cons = λ a b s. refl;
  get_bytes-short = λ s n h. rw (lt→ltb _ _ h);
  get_bytes-enough = λ s n h. rw (le→ltb _ _ h);
  get_u16_length_prefixed-nil = refl;
  get_u16_length_prefixed-one = λ a. refl;
  get_u16_length_prefixed-short = λ a b s h. rw (lt→ltb _ _ h);
  get_u16_length_prefixed-enough = λ a b s h. rw (le→ltb _ _ h);
}

-- The numbers and names of RFC 9460, with the spelling of `supported_keys` for the ECH key.
abbrev key_name_of : ℕ → Bytes
key_name_of k =
    if k == 0
    then text "mandatory"
    else if k == 1
    then text "alpn"
    else if k == 3
    then text "port"
    else if k == 4
    then text "ipv4hint"
    else if k == 5
    then text "echconfig"
    else if k == 6
    then text "ipv6hint"
    else []

abbrev pub protocol : DnsProtocol
protocol = record {
  key_mandatory = 0;
  key_alpn = 1;
  key_ech_config = 5;
  key_ipv4_hint = 4;
  key_ipv6_hint = 6;
  key_port = 3;
  key_to_string = key_name_of;
  address_is_valid = λ a. length a == 4 || length a == 16;
}

pub protocol-IsAddressCheck : IsAddressCheck protocol
protocol-IsAddressCheck = record { valid_v4 = λ a h. rw h; valid_v6 = λ a h. rw h }

abbrev pub all_features : FeatureList
all_features f = true

-- BoringSSL accepts everything, and the server sends this retry config.
abbrev pub willing : Option Bytes → SslEnv
willing retry = record { accepts = λ t c. true; retry_configs = λ t. retry }

abbrev not_keys : Call → Bool
not_keys set_ech_keys = false
not_keys _ = true

-- BoringSSL accepts all but `SSL_set_ech_keys`.
abbrev pub unwilling : SslEnv
unwilling = record { accepts = λ t c. not_keys c; retry_configs = λ t. none }

-- A resolve context is what was stored at each key.
pub record Stored : Type 0 where
  pub ech_of : ℕ → Bytes
  pub http3_of : ℕ → Bool
  pub hints_of : ℕ → List Bytes
  pub port_of : ℕ → ℕ

abbrev put_at {ℓ} : {A : Type ℓ} → ℕ → A → (ℕ → A) → ℕ → A
put_at k v f j = ite (ℕ_discrete j k) v (f j)

put_at_same {ℓ} : {A : Type ℓ} (k : ℕ) (v : A) (f : ℕ → A) → put_at k v f k ≡ v
put_at_same k v f = if_pos (ℕ_discrete k k) refl v (f k)

put_at_other {ℓ} : {A : Type ℓ} (k j : ℕ) (v : A) (f : ℕ → A) → j ≢ k → put_at k v f j ≡ f j
put_at_other k j v f ne = if_neg (ℕ_discrete j k) ne v (f j)

abbrev pub nothing_stored : Stored
nothing_stored = record {
  ech_of = λ k. [];
  http3_of = λ k. false;
  hints_of = λ k. [];
  port_of = λ k. 0;
}

abbrev pub contexts : ContextOps Stored ℕ
contexts = record {
  set_ech_config = λ k v c. record c { ech_of = put_at k v c.ech_of };
  get_ech_config = λ k c. c.ech_of k;
  set_supports_http3 = λ k v c. record c { http3_of = put_at k v c.http3_of };
  supports_http3 = λ k c. c.http3_of k;
  set_address_hints = λ k v c. record c { hints_of = put_at k v c.hints_of };
  set_alternative_port = λ k v c. record c { port_of = put_at k v c.port_of };
}

pub contexts-IsContext : IsContext contexts
contexts-IsContext = record {
  ech_set = λ k v c. put_at_same k v c.ech_of;
  ech_set_ne = λ k j v c ne. put_at_other k j v c.ech_of ne;
  ech_http3 = λ k j v c. refl;
  ech_hints = λ k j v c. refl;
  ech_port = λ k j v c. refl;
  http3_set = λ k v c. put_at_same k v c.http3_of;
  http3_set_ne = λ k j v c ne. put_at_other k j v c.http3_of ne;
  http3_ech = λ k j v c. refl;
  http3_hints = λ k j v c. refl;
  http3_port = λ k j v c. refl;
}

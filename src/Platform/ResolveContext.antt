-- ===== src/Platform/ResolveContext.antt =====
-- Chromium's `ResolveContext` as the patches use it: values stored per network anonymization key.
-- `C` is the type of contexts and `K` that of the keys.
use kiwi_network_patches.Prelude.{ℕ, Bool, List, ◌≡◌, ◌≢◌}
use kiwi_network_patches.Prelude.Bytes.{Bytes}

pub record ContextOps (C K : Type 0) : Type 0 where
  pub set_ech_config : K → Bytes → C → C
  pub get_ech_config : K → C → Bytes
  pub set_supports_http3 : K → Bool → C → C
  pub supports_http3 : K → C → Bool
  pub set_address_hints : K → List Bytes → C → C
  pub set_alternative_port : K → ℕ → C → C

-- A getter returns what was last set at its key; the setters of other values or at other keys do
-- not change it.
pub record IsContext {C K : Type 0} (ops : ContextOps C K) : Type 0 where
  pub ech_set : (k : K) (v : Bytes) (c : C) → ops.get_ech_config k (ops.set_ech_config k v c) ≡ v
  pub ech_set_ne :
      (k j : K) (v : Bytes) (c : C)
      → j ≢ k
      → ops.get_ech_config j (ops.set_ech_config k v c) ≡ ops.get_ech_config j c
  pub ech_http3 :
      (k j : K) (b : Bool) (c : C)
      → ops.get_ech_config j (ops.set_supports_http3 k b c) ≡ ops.get_ech_config j c
  pub ech_hints :
      (k j : K) (v : List Bytes) (c : C)
      → ops.get_ech_config j (ops.set_address_hints k v c) ≡ ops.get_ech_config j c
  pub ech_port :
      (k j : K) (n : ℕ) (c : C)
      → ops.get_ech_config j (ops.set_alternative_port k n c) ≡ ops.get_ech_config j c
  pub http3_set :
      (k : K) (b : Bool) (c : C) → ops.supports_http3 k (ops.set_supports_http3 k b c) ≡ b
  pub http3_set_ne :
      (k j : K) (b : Bool) (c : C)
      → j ≢ k
      → ops.supports_http3 j (ops.set_supports_http3 k b c) ≡ ops.supports_http3 j c
  pub http3_ech :
      (k j : K) (v : Bytes) (c : C)
      → ops.supports_http3 j (ops.set_ech_config k v c) ≡ ops.supports_http3 j c
  pub http3_hints :
      (k j : K) (v : List Bytes) (c : C)
      → ops.supports_http3 j (ops.set_address_hints k v c) ≡ ops.supports_http3 j c
  pub http3_port :
      (k j : K) (n : ℕ) (c : C)
      → ops.supports_http3 j (ops.set_alternative_port k n c) ≡ ops.supports_http3 j c

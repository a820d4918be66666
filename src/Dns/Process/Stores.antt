-- ===== src/Dns/Process/Stores.antt =====
-- host_resolver_manager.cc: what a result leaves in the resolve context, field by field.
use kiwi_network_patches.Prelude.{
  ℕ, ◌≡◌, ◌≢◌, ◌⊎◌, ◌↔◌, ◌&&◌, Option, refl, sym, ap, ◌∙◌, inl, inr, true, false, Bool-cases,
  Option-cases, none, some, List, [], ◌∷◌, ◌++◌,
}
use mathlib.Core.Bool.{true≢false}
use mathlib.Core.List.{Memᴰ}
use kiwi_network_patches.Prelude.Bytes.{Bytes, eqs, eqs_iff, is_empty, text}
use kiwi_network_patches.Platform.ResolveContext.{ContextOps}
use kiwi_network_patches.Dns.Record.{HttpsRecordResult}
use kiwi_network_patches.Dns.Process.{
  no_items, has_h3, store_ech, store_http3, store_hints, store_result,
}

-- The protocol is among those that a record lists.
abbrev pub Lists : Bytes → List Bytes → Type 0
Lists protocol alpns = Memᴰ protocol alpns

listed-has_h3 : (alpns : List Bytes) → has_h3 alpns ≡ true → Lists (text "h3") alpns
listed-has_h3 [] h = cc
listed-has_h3 (alpn ∷ alpns) h = elim (Bool-cases (eqs alpn (text "h3"))) [
  | inl e ↦ Memᴰ.head (sym ((eqs_iff alpn (text "h3")).0 e))
  | inr e ↦ Memᴰ.tail (listed-has_h3 alpns (rw e at h))
]

has_h3-listed : (alpns : List Bytes) → Lists (text "h3") alpns → has_h3 alpns ≡ true
has_h3-listed [] m = elim m [ ]
has_h3-listed (alpn ∷ alpns) (Memᴰ.head same) = rw ((eqs_iff alpn (text "h3")).1 (sym same)) refl
has_h3-listed (alpn ∷ alpns) (Memᴰ.tail m) = elim (Bool-cases (eqs alpn (text "h3"))) [
  | inl e ↦ rw e refl
  | inr e ↦ rw e (has_h3-listed alpns m)
]

-- The loop finds "h3" wherever it stands.
pub has_h3_iff : (alpns : List Bytes) → (has_h3 alpns ≡ true) ↔ Lists (text "h3") alpns
has_h3_iff alpns = (listed-has_h3 alpns, has_h3-listed alpns)

nil-empty : (xs : Bytes) → is_empty xs ≡ true → xs ≡ []
nil-empty [] h = refl
nil-empty (x ∷ xs) h = cc

nil-no_items : (xs ys : List Bytes) → (no_items xs && no_items ys) ≡ true → xs ++ ys ≡ []
nil-no_items [] [] h = refl
nil-no_items [] (y ∷ ys) h = cc
nil-no_items (x ∷ xs) ys h = cc

some_items : (xs ys : List Bytes) → (no_items xs && no_items ys) ≡ false → xs ++ ys ≢ []
some_items [] [] h e = cc
some_items [] (y ∷ ys) h e = cc
some_items (x ∷ xs) ys h e = cc

module _ {C K : Type 0} (ops : ContextOps C K) (nik : K) where
  -- The four steps, each with what it sets, or without anything to set.
  pub record Stores (r : HttpsRecordResult) (c c' : C) : Type 0 where
    pub with_ech : C
    pub with_http3 : C
    pub with_hints : C
    pub ech :
        ((r.ech_config ≢ []) × (with_ech ≡ ops.set_ech_config nik r.ech_config c))
        ⊎ ((r.ech_config ≡ []) × (with_ech ≡ c))
    pub http3 :
        (Lists (text "h3") r.alpn × (with_http3 ≡ ops.set_supports_http3 nik true with_ech))
        ⊎ (¬ Lists (text "h3") r.alpn × (with_http3 ≡ with_ech))
    pub hints :
        ((r.ipv4_hints ++ r.ipv6_hints ≢ [])
          × (with_hints ≡ ops.set_address_hints nik (r.ipv4_hints ++ r.ipv6_hints) with_http3))
        ⊎ ((r.ipv4_hints ++ r.ipv6_hints ≡ []) × (with_hints ≡ with_http3))
    pub port :
        ((p : ℕ) × (r.port ≡ some p) × (c' ≡ ops.set_alternative_port nik p with_hints))
        ⊎ ((r.port ≡ none) × (c' ≡ with_hints))

  pub store_result-Stores : (r : HttpsRecordResult) (c : C) → Stores r c (store_result ops nik r c)
  unfolding store_result
  store_result-Stores r c = record {
    with_ech = store_ech ops nik r c;
    with_http3 = store_http3 ops nik r (store_ech ops nik r c);
    with_hints = store_hints ops nik r (store_http3 ops nik r (store_ech ops nik r c));
    ech = elim (Bool-cases (is_empty r.ech_config)) [
      | inl e ↦ inr (nil-empty _ e, rw e refl)
      | inr e ↦ inl (λ nil. true≢false (sym (ap is_empty nil) ∙ e), rw e refl)
    ];
    http3 = elim (Bool-cases (has_h3 r.alpn)) [
      | inl e ↦ inl ((has_h3_iff r.alpn).0 e, rw e refl)
      | inr e ↦ inr (λ m. true≢false (sym ((has_h3_iff r.alpn).1 m) ∙ e), rw e refl)
    ];
    hints = elim (Bool-cases (no_items r.ipv4_hints && no_items r.ipv6_hints)) [
      | inl e ↦ inr (nil-no_items r.ipv4_hints r.ipv6_hints e, rw e refl)
      | inr e ↦ inl (some_items r.ipv4_hints r.ipv6_hints e, rw e refl)
    ];
    port = elim (Option-cases r.port) [
      | inl e ↦ inr (e, rw e refl)
      | inr (p, e) ↦ inl (p, e, rw e refl)
    ];
  }

  -- The context behind the loop: the fields of the chosen record are stored, if there is one.
  abbrev pub StoresFirst : Option HttpsRecordResult → C → C → Type 0
  StoresFirst none c c' = c' ≡ c
  StoresFirst (some r) c c' = Stores r c c'

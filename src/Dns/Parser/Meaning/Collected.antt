-- ===== src/Dns/Parser/Meaning/Collected.antt =====
-- host_resolver_manager.cc: `Parse` gives the fields of a result the meaning of the SvcParams.
use kiwi_network_patches.Prelude.{
  ℕ, ◌≡◌, ◌≢◌, refl, sym, ap, ◌∙◌, List, [], ◌∷◌, ◌++◌, All, foldl, arith, ℕ_discrete,
}
use kiwi_network_patches.Prelude.Bytes.{Bytes}
use kiwi_network_patches.Prelude.Tlv.{Tlv, FitsWire}
use kiwi_network_patches.Platform.DnsProtocol.{DnsProtocol}
use kiwi_network_patches.Dns.Record.{HttpsRecordResult}
use kiwi_network_patches.Dns.Parser.Reading.{act}
use kiwi_network_patches.Dns.Parser.Meaning.{values, Together, no_more, and_then}

-- The parameters with one key.
values-hit :
    (key : ℕ) (p : Tlv) (ps : List Tlv)
    → p.tag ≡ key
    → values key (p ∷ ps) ≡ p.value ∷ values key ps
values-hit key p ps e = ground arith

values-miss :
    (key : ℕ) (p : Tlv) (ps : List Tlv) → p.tag ≢ key → values key (p ∷ ps) ≡ values key ps
values-miss key p ps h = ground arith

module _ {ℓ} {A : Type ℓ} (d : DnsProtocol) (key : ℕ) (f : HttpsRecordResult → A)
    (miss : (p : Tlv) (r : HttpsRecordResult) → p.tag ≢ key → f (act d r p) ≡ f r) where
  -- A field that each value of its key replaces by what it makes of it.
  pub foldl-act-update :
      (next : A → Bytes → A)
      → ((p : Tlv) (r : HttpsRecordResult) → p.tag ≡ key → f (act d r p) ≡ next (f r) p.value)
      → (ps : List Tlv) (r : HttpsRecordResult)
      → f (foldl (act d) r ps) ≡ foldl next (f r) (values key ps)
  foldl-act-update next hit [] r = refl
  foldl-act-update next hit (p ∷ ps) r = elim (ℕ_discrete p.tag key) [
    | yes e ↦ foldl-act-update next hit ps (act d r p) ∙ rw (hit p r e, values-hit key p ps e)
    | no h ↦ foldl-act-update next hit ps (act d r p) ∙ rw (miss p r h, values-miss key p ps h)
  ]

  -- A field to which each value of its key adds what it lists.
  pub foldl-act-Together :
      (put : A → List Bytes → A) (Lists : Bytes → List Bytes → Type 0)
      → ((x : A) → put x [] ≡ x)
      → ((x : A) (xs ys : List Bytes) → put (put x xs) ys ≡ put x (xs ++ ys))
      → ((p : Tlv) (r : HttpsRecordResult)
          → FitsWire p
          → p.tag ≡ key
          → (xs : List Bytes) × Lists p.value xs × (f (act d r p) ≡ put (f r) xs))
      → (ps : List Tlv) (r : HttpsRecordResult) → All FitsWire ps
      → (xs : List Bytes) × Together Lists (values key ps) xs
        × (f (foldl (act d) r ps) ≡ put (f r) xs)
  foldl-act-Together put Lists nil assoc hit [] r ok = ([], no_more, sym (nil (f r)))
  foldl-act-Together put Lists nil assoc hit (p ∷ ps) r ok =
      let (ys, rest, e) = foldl-act-Together put Lists nil assoc hit ps (act d r p) ok.1 in
      elim (ℕ_discrete p.tag key) [
        | yes same ↦
            let (xs, here, e0) = hit p r ok.0 same in
            (
              xs ++ ys,
              rw (values-hit key p ps same) (and_then here rest),
              e ∙ ap (λ x. put x ys) e0 ∙ assoc (f r) xs ys,
            )
        | no h ↦ (ys, rw (values-miss key p ps h) rest, e ∙ ap (λ x. put x ys) (miss p r h))
      ]

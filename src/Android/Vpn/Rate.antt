-- ===== src/Android/Vpn/Rate.antt =====
-- android_network_config.cc: what a history of QUIC results over a VPN leaves.
use kiwi_network_patches.Prelude.{
  ◌≡◌, inl, inr, refl, Bool, true, false, List, [], ◌∷◌, ◌++◌, Bool-cases,
}
use kiwi_network_patches.Platform.Float.{FloatOps, IsRounded}
use kiwi_network_patches.Android.Vpn.{
  quic_success_rate_over_vpn, should_use_quic_over_vpn, record_quic_result_over_vpn,
}

-- The first list succeeds only where the second does, result by result.
pub data Below : List Bool → List Bool → Type 0 where
  both_empty : Below [] []
  both :
      {a b : Bool} {xs ys : List Bool}
      → (a ≡ true → b ≡ true)
      → Below xs ys
      → Below (a ∷ xs) (b ∷ ys)

module _ {W : Type 0} (ops : FloatOps W) where
  -- The results in order, the oldest first.
  abbrev pub run : List Bool → W → W
  run [] rate = rate
  run (b ∷ bs) rate = run bs (record_quic_result_over_vpn ops b rate)

  pub run-append : (xs ys : List Bool) (x : W) → run (xs ++ ys) x ≡ run ys (run xs x)
  run-append [] ys x = refl
  run-append (b ∷ xs) ys x = run-append xs ys _

module _ {W : Type 0} (ops : FloatOps W) (laws : IsRounded ops) where
  -- A rate between 0 and 1.
  abbrev IsRate : W → Type 0
  IsRate x = laws.Le laws.zero x × laws.Le x ops.one

  mul-pos :
      (x : W) → laws.Le laws.zero x → laws.Le laws.zero (ops.mul (ops.sub ops.one ops.one_tenth) x)
  mul-pos x h = laws.le_trans _ _ _ laws.mul-zero (laws.mul-le laws.zero x h)

  record-le :
      (a b : Bool) (x y : W)
      → (a ≡ true → b ≡ true)
      → laws.Le laws.zero y
      → laws.Le x y
      → laws.Le (record_quic_result_over_vpn ops a x) (record_quic_result_over_vpn ops b y)
  unfolding record_quic_result_over_vpn
  record-le true true x y h pos le = laws.add-le _ _ (laws.mul-le x y le)
  record-le true false x y h pos le = absurd (cc (h refl))
  record-le false true x y h pos le =
      laws.le_trans _ _ _ (laws.mul-le x y le) (laws.le-add _ (mul-pos y pos))
  record-le false false x y h pos le = laws.mul-le x y le

  record-IsRate : (b : Bool) (x : W) → IsRate x → IsRate (record_quic_result_over_vpn ops b x)
  unfolding record_quic_result_over_vpn
  record-IsRate b x h =
      let low = mul-pos x h.0 in
      elim (Bool-cases b) [
        | inl e ↦ rw e (
          laws.le_trans _ _ _ low (laws.le-add _ low),
          laws.le_trans _ _ _ (laws.add-le _ _ (laws.mul-le x ops.one h.1)) laws.full,
        )
        | inr e ↦ rw e (low, laws.le_trans _ _ _ (laws.mul-le x ops.one h.1) laws.mul-one)
      ]

  run-IsRate : (bs : List Bool) (x : W) → IsRate x → IsRate (run ops bs x)
  run-IsRate [] x h = h
  run-IsRate (b ∷ bs) x h = run-IsRate bs _ (record-IsRate b x h)

  run-le :
      {xs ys : List Bool} (x y : W)
      → Below xs ys
      → IsRate y
      → laws.Le x y
      → laws.Le (run ops xs x) (run ops ys y)
  run-le x y both_empty h le = le
  run-le x y (both {a} {b} ab below) h le =
      run-le _ _ below (record-IsRate b y h) (record-le a b x y ab h.0 le)

  initial-IsRate : IsRate (quic_success_rate_over_vpn ops)
  initial-IsRate = (laws.zero_le, laws.le_one)

  -- A history with more successes, result by result, keeps QUIC in use wherever one with fewer
  -- does.
  pub should_use_quic-Below :
      (xs ys : List Bool) (vpn_active : Bool)
      → Below xs ys
      → should_use_quic_over_vpn ops vpn_active (run ops xs (quic_success_rate_over_vpn ops)) ≡ true
      → should_use_quic_over_vpn ops vpn_active (run ops ys (quic_success_rate_over_vpn ops)) ≡ true
  unfolding should_use_quic_over_vpn
  should_use_quic-Below xs ys false below h = refl
  should_use_quic-Below xs ys true below h =
      let initial = quic_success_rate_over_vpn ops in
      laws.exceeds-le _ _ (run-le initial initial below initial-IsRate (laws.le_refl initial)) h

  Below-refl : (xs : List Bool) → Below xs xs
  Below-refl [] = both_empty
  Below-refl (b ∷ xs) = both (λ h. h) (Below-refl xs)

  -- If results would lift a rate of 0 above 0.3, then behind them QUIC is used, whatever results
  -- came before.
  pub should_use_quic-append :
      (xs ys : List Bool) (vpn_active : Bool)
      → ops.exceeds_three_tenths (run ops ys laws.zero) ≡ true
      → should_use_quic_over_vpn ops vpn_active
          (run ops (xs ++ ys) (quic_success_rate_over_vpn ops))
        ≡ true
  unfolding should_use_quic_over_vpn
  should_use_quic-append xs ys false h = refl
  should_use_quic-append xs ys true h =
      let rate = run-IsRate xs (quic_success_rate_over_vpn ops) initial-IsRate in
      rw (run-append ops xs ys (quic_success_rate_over_vpn ops))
        (laws.exceeds-le _ _ (run-le laws.zero _ (Below-refl ys) rate rate.0) h)

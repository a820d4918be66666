-- ===== src/Android/Vpn.antt =====
-- android_network_config.cc: `VPNCompatibility`. Its state is the average, a `float`; `vpn_active`
-- is the answer of `NetworkChangeNotifier::IsUsingVpn`.
pub mod Rate
use kiwi_network_patches.Prelude.{Bool, true, not, if◌then◌else◌}
use kiwi_network_patches.Platform.Float.{FloatOps}

abbrev pub is_vpn_active : Bool → Bool
is_vpn_active vpn_active = vpn_active

unfoldable pub should_keep_ech_for_vpn : Bool → Bool
should_keep_ech_for_vpn vpn_active = if not (is_vpn_active vpn_active) then true else true

module _ {W : Type 0} (ops : FloatOps W) where
  -- `quic_success_rate_over_vpn_` at the start.
  abbrev pub quic_success_rate_over_vpn : W
  quic_success_rate_over_vpn = ops.four_fifths

  unfoldable pub should_use_quic_over_vpn : Bool → W → Bool
  should_use_quic_over_vpn vpn_active rate =
      if not (is_vpn_active vpn_active) then true else ops.exceeds_three_tenths rate

  -- `RecordQuicResultOverVpn`, with `kAlpha` written out.
  unfoldable pub record_quic_result_over_vpn : Bool → W → W
  record_quic_result_over_vpn success rate =
      if success
      then ops.add (ops.mul (ops.sub ops.one ops.one_tenth) rate) ops.one_tenth
      else ops.mul (ops.sub ops.one ops.one_tenth) rate

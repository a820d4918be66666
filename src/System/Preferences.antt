-- ===== src/System/Preferences.antt =====
-- system_network_context_manager.cc: the preferences behind `ConfigureKiwiNetworkFeatures`.
use kiwi_network_patches.Prelude.{◌≡◌, ◌≢◌, refl, ap, ◌∙◌, Bool, true, false, some}
use mathlib.Core.Bool.{true≢false}
use kiwi_network_patches.Prelude.Bytes.{text}
use kiwi_network_patches.System.{
  PrefName, dns_over_https_mode, certificate_transparency_enabled, string_value, bool_value,
  PrefOps, IsPrefs, configure_kiwi_network_features,
}

abbrev code_of : PrefName → Bool
code_of dns_over_https_mode = true
code_of certificate_transparency_enabled = false

mode-ne : dns_over_https_mode ≢ certificate_transparency_enabled
mode-ne e = true≢false (ap code_of e)

-- Over preferences with the documented behaviour the defaults are the automatic mode of DNS over
-- HTTPS, and certificate transparency.
pub configure_kiwi_network_features-defaults :
    {P : Type 0} (ops : PrefOps P)
    → IsPrefs ops
    → (p : P)
    → (q : P) × (configure_kiwi_network_features ops (some p) ≡ some q)
      × (ops.get_default_pref_value dns_over_https_mode q ≡ some (string_value (text "automatic")))
      × (ops.get_default_pref_value certificate_transparency_enabled q ≡ some (bool_value true))
unfolding configure_kiwi_network_features
configure_kiwi_network_features-defaults ops laws p = (
  _,
  refl,
  laws.get-set_ne certificate_transparency_enabled dns_over_https_mode _ _ mode-ne
      ∙ laws.get-set dns_over_https_mode _ p,
  laws.get-set certificate_transparency_enabled _ _,
)

-- ===== src/Network/Abstract/Surroundings.antt =====
-- What proxies, scripts and networks around the program leave in it, against the calls that report them:
-- the score of the interception detector, the flag of the PAC check and the average over VPNs.
use kiwi_network_patches.Prelude.{
  ◌≡◌, ◌↔◌, refl, sym, ap, ◌∙◌, inl, inr, Bool, true, false, List, [], ◌∷◌, arith, Bool-cases,
}
use mathlib.Core.Bool.{true≢false}
use kiwi_network_patches.Prelude.Bytes.{Bytes, text}
use kiwi_network_patches.Platform.Features.{FeatureList}
use kiwi_network_patches.Platform.Bytestring.{Cbs}
use kiwi_network_patches.Platform.DnsProtocol.{DnsProtocol}
use kiwi_network_patches.Platform.ResolveContext.{ContextOps}
use kiwi_network_patches.Platform.Float.{FloatOps}
use kiwi_network_patches.Platform.LruCache.{LruOps}
use kiwi_network_patches.Retry.Cache.{CacheEntry}
use kiwi_network_patches.Tls.Connection.{strstr}
use kiwi_network_patches.Tls.Connection.Result.{strstr_iff}
use kiwi_network_patches.Proxy.{is_connection_intercepted, check_pac_script}
use kiwi_network_patches.Proxy.Interception.{
  adjust_for_proxy_environment-config, Resolves, here, there,
}
use kiwi_network_patches.Proxy.Score.{points, is_connection_intercepted-points}
use kiwi_network_patches.Android.Vpn.{quic_success_rate_over_vpn, record_quic_result_over_vpn}
use kiwi_network_patches.Android.Vpn.Rate
use kiwi_network_patches.Android.Vpn.Rate.{run-append}
use kiwi_network_patches.Network.{
  Network, Label, Step, resolve, retry, report, look_up, drop_config, migrate, clear_monitor,
  clear_cache, move, switch, observe, adjust, check_script, report_vpn,
}
use kiwi_network_patches.Network.Abstract.{evidence, pac_scripts, vpn_results}

pub Resolves-none : Resolves [] → false ≡ true
Resolves-none r = absurd (go r refl)
  where
    go : {scripts : List Bytes} → Resolves scripts → scripts ≡ [] → ⊥
    go (here o) e = cc
    go (there r') e = cc

-- The flag behind one more script.
check_pac_script-Resolves :
    (script : Bytes) (scripts : List Bytes) (flag : Bool)
    → (flag ≡ true) ↔ Resolves scripts
    → (check_pac_script script flag ≡ true) ↔ Resolves (script ∷ scripts)
unfolding check_pac_script
check_pac_script-Resolves script scripts flag h =
    elim (Bool-cases (strstr (text "dnsResolve") script)) [
      | inl e ↦ (λ same. here ((strstr_iff _ script).0 e), λ r. rw e refl)
      | inr e ↦ (λ same. there (h.0 (rw e at same)), λ r. rw e (h.1 (later e r)))
    ]
  where
    later :
        {script' : Bytes} {scripts' : List Bytes}
        → strstr (text "dnsResolve") script' ≡ false
        → Resolves (script' ∷ scripts')
        → Resolves scripts'
    later e (here o) = absurd (true≢false (sym ((strstr_iff _ _).1 o) ∙ e))
    later e (there r) = r

module _ {X C N K W : Type 0} (features : FeatureList) (cbs : Cbs) (d : DnsProtocol)
    (contexts : ContextOps X N) (caches : LruOps C K CacheEntry) (floats : FloatOps W)
    (dec : Discrete K) (labels : List (Label N K)) where
  pub Step-score :
      {s u : Network X C K W} {l : Label N K}
      → Step features cbs d contexts caches floats dec s l u
      → s.suspicion_score ≡ points (evidence labels)
      → u.suspicion_score ≡ points (evidence (l ∷ labels))
  Step-score (resolve nik records bytes run) h = h
  Step-score (retry now host config env t server) h = h
  Step-score (report host success) h = h
  Step-score (look_up now host config) h = h
  Step-score (drop_config host) h = h
  Step-score (migrate host) h = h
  Step-score clear_monitor h = h
  Step-score clear_cache h = h
  Step-score (move type) h = h
  Step-score (switch type) h = h
  Step-score (observe e) h =
      ap (λ score. (is_connection_intercepted e score).1) h
      ∙ is_connection_intercepted-points e (evidence labels)
  Step-score {s} (adjust proxy_info config) h =
      ap (λ r. r.1) (adjust_for_proxy_environment-config proxy_info config s.suspicion_score)
      ∙ omega arith
  Step-score (check_script pac_script) h = h
  Step-score (report_vpn success) h = h

  pub Step-flag :
      {s u : Network X C K W} {l : Label N K}
      → Step features cbs d contexts caches floats dec s l u
      → (s.needs_doh_fallback ≡ true) ↔ Resolves (pac_scripts labels)
      → (u.needs_doh_fallback ≡ true) ↔ Resolves (pac_scripts (l ∷ labels))
  Step-flag (resolve nik records bytes run) h = h
  Step-flag (retry now host config env t server) h = h
  Step-flag (report host success) h = h
  Step-flag (look_up now host config) h = h
  Step-flag (drop_config host) h = h
  Step-flag (migrate host) h = h
  Step-flag clear_monitor h = h
  Step-flag clear_cache h = h
  Step-flag (move type) h = h
  Step-flag (switch type) h = h
  Step-flag (observe e) h = h
  Step-flag (adjust proxy_info config) h = h
  Step-flag {s} (check_script pac_script) h =
      check_pac_script-Resolves pac_script (pac_scripts labels) s.needs_doh_fallback h
  Step-flag (report_vpn success) h = h

  pub Step-rate :
      {s u : Network X C K W} {l : Label N K}
      → Step features cbs d contexts caches floats dec s l u
      → s.vpn_quic_rate ≡ Rate.run floats (vpn_results labels) (quic_success_rate_over_vpn floats)
      → u.vpn_quic_rate
        ≡ Rate.run floats (vpn_results (l ∷ labels)) (quic_success_rate_over_vpn floats)
  Step-rate (resolve nik records bytes run) h = h
  Step-rate (retry now host config env t server) h = h
  Step-rate (report host success) h = h
  Step-rate (look_up now host config) h = h
  Step-rate (drop_config host) h = h
  Step-rate (migrate host) h = h
  Step-rate clear_monitor h = h
  Step-rate clear_cache h = h
  Step-rate (move type) h = h
  Step-rate (switch type) h = h
  Step-rate (observe e) h = h
  Step-rate (adjust proxy_info config) h = h
  Step-rate (check_script pac_script) h = h
  Step-rate (report_vpn success) h =
      ap (record_quic_result_over_vpn floats success) h
      ∙ sym (
          run-append floats (vpn_results labels) (success ∷ []) (quic_success_rate_over_vpn floats))

-- ===== src/Proxy.antt =====
-- proxy_tls_interception.cc: the detector of TLS interception, the check of PAC scripts, and what
-- a proxy changes for a connection. The score is an `int` in the source, an exact number here.
pub mod Interception
pub mod Score
use kiwi_network_patches.Prelude.{ℕ, ◌+◌, Bool, true, not, ◌&&◌, [], leb, if◌then◌else◌}
use kiwi_network_patches.Prelude.Bytes.{Bytes, is_empty, text}
use kiwi_network_patches.Tls.Config.{SslConfig}
use kiwi_network_patches.Tls.Connection.{strstr}

-- `ProxyServer::Scheme`, the members that the source names.
pub data Scheme : Type 0 where
  scheme_direct scheme_http scheme_https scheme_socks4 scheme_socks5 scheme_quic : Scheme

pub data ProxyEchCompatibility : Type 0 where
  ech_compatible ech_incompatible ech_degraded : ProxyEchCompatibility

unfoldable pub get_proxy_ech_compatibility : Scheme → ProxyEchCompatibility
get_proxy_ech_compatibility scheme_direct = ech_compatible
get_proxy_ech_compatibility scheme_http = ech_compatible
get_proxy_ech_compatibility scheme_https = ech_compatible
get_proxy_ech_compatibility scheme_socks4 = ech_compatible
get_proxy_ech_compatibility scheme_socks5 = ech_compatible
get_proxy_ech_compatibility scheme_quic = ech_compatible

-- What the detector reads of an `SSLInfo`: the two fields of ECH, the two bits of `cert_status`,
-- and whether the OCSP response is `PROVIDED`.
pub record Evidence : Type 0 where
  pub evidence_ech_accepted : Bool
  pub ech_retry_config : Bytes
  pub authority_invalid : Bool
  pub common_name_invalid : Bool
  pub ocsp_provided : Bool

unfoldable pub is_enterprise_ca : Evidence → Bool
is_enterprise_ca e = e.authority_invalid && not e.common_name_invalid

-- `IsConnectionIntercepted`: the answer, and the score behind the call.
unfoldable pub is_connection_intercepted : Evidence → ℕ → Bool × ℕ
is_connection_intercepted e score =
    let score1 =
      if not e.evidence_ech_accepted && is_empty e.ech_retry_config then score + 30 else score in
    let score2 = if is_enterprise_ca e then score1 + 40 else score1 in
    let score3 = if not e.ocsp_provided then score2 + 20 else score2 in (leb 60 score3, score3)

unfoldable pub reset_suspicion : ℕ → ℕ
reset_suspicion score = 0

-- `HandleInterception` on the degradation monitor, whose states are `M`. The class declares no
-- `ForceDisableECH`, so that is an argument.
unfoldable handle_interception : {M K : Type 0} → (K → M → M) → K → M → M
handle_interception force_disable_ech target monitor = force_disable_ech target monitor

-- `CheckPACScript`, over the flag `needs_doh_fallback_`.
unfoldable pub check_pac_script : Bytes → Bool → Bool
check_pac_script pac_script needs_doh_fallback =
    if strstr (text "dnsResolve") pac_script then true else needs_doh_fallback

pub record ProxyInfo : Type 0 where
  pub is_direct : Bool
  pub proxy_scheme : Scheme

-- `AdjustForProxyEnvironment`: the configuration and the score behind it.
unfoldable pub adjust_for_proxy_environment : ProxyInfo → SslConfig → ℕ → SslConfig × ℕ
adjust_for_proxy_environment proxy_info ssl_config score =
    let score1 = reset_suspicion score in
    if proxy_info.is_direct
    then (ssl_config, score1)
    else elim (get_proxy_ech_compatibility proxy_info.proxy_scheme) [
      | ech_compatible ↦ (ssl_config, score1)
      | ech_incompatible ↦ (record ssl_config { ech_config_list = [] }, score1)
      | ech_degraded ↦ (record ssl_config { ech_config_list = [] }, score1)
    ]

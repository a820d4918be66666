-- ===== src/Request.antt =====
-- url_request_http_job.cc: the ECH configuration on its way from the resolver to a connection.
-- `C` is the type of resolve contexts and `K` that of the network anonymization keys.
pub mod Pipeline
pub mod Connection
use kiwi_network_patches.Prelude.{not, Option, none, some, [], if◌then◌else◌}
use kiwi_network_patches.Prelude.Bytes.{Bytes, is_empty, text}
use kiwi_network_patches.Platform.Features.{FeatureList, encrypted_client_hello, use_dns_https_svcb}
use kiwi_network_patches.Platform.ResolveContext.{ContextOps}
use kiwi_network_patches.Tls.Config.{SslConfig, balanced, configure_kiwi_ssl_profile}

-- `request->context()`; its `resolve_context()` may be missing.
pub record UrlRequestContext (C : Type 0) : Type 0 where
  pub resolve_context : Option C

pub record UrlRequest (C K : Type 0) : Type 0 where
  pub context : Option (UrlRequestContext C)
  pub network_anonymization_key : K

module _ {C K : Type 0} (ops : ContextOps C K) (features : FeatureList) where
  unfoldable pub get_ech_config_for_request : UrlRequest C K → Bytes
  get_ech_config_for_request request =
      if not (features encrypted_client_hello) then [] else elim request.context [
        | none ↦ []
        | some context ↦ elim context.resolve_context [
          | none ↦ []
          | some resolve_context ↦
              ops.get_ech_config request.network_anonymization_key resolve_context
        ]
      ]

  -- `ApplyEchConfigToRequest`: what `transaction->SetEchConfig` is called with, if it is.
  unfoldable pub apply_ech_config_to_request : UrlRequest C K → Option Bytes
  apply_ech_config_to_request request =
      if not (features encrypted_client_hello)
      then none
      else (let ech_config = get_ech_config_for_request request in
          if is_empty ech_config then none else some ech_config)

  unfoldable pub select_protocol_from_dns_result : UrlRequest C K → Bytes
  select_protocol_from_dns_result request =
      if not (features use_dns_https_svcb) then [] else elim request.context [
        | none ↦ []
        | some context ↦ elim context.resolve_context [
          | none ↦ []
          | some resolve_context ↦
              if ops.supports_http3 request.network_anonymization_key resolve_context
              then text "h3"
              else []
        ]
      ]

  -- `ConfigureSSLForRequest`; `none` for a null request.
  unfoldable pub configure_ssl_for_request : SslConfig → Option (UrlRequest C K) → SslConfig
  configure_ssl_for_request ssl_config none = ssl_config
  configure_ssl_for_request ssl_config (some request) =
      let ech_config = get_ech_config_for_request request in
      let with_ech =
        if not (is_empty ech_config)
        then record ssl_config { ech_config_list = ech_config }
        else ssl_config in
      configure_kiwi_ssl_profile with_ech balanced

-- ===== src/Platform/BoringSsl.antt =====
-- The calls into BoringSSL and into the UMA histograms that the sources make, and an environment
-- that answers them. The calls that were made are a trace, newest first.
use kiwi_network_patches.Prelude.{ℕ, Bool, List, Option}
use kiwi_network_patches.Prelude.Bytes.{Bytes}

-- ssl_client_socket.cc: `ech_metrics::ECHResult`.
pub data EchResult : Type 0 where
  success failed_retry failed_fallback no_config not_attempted : EchResult

pub data Call : Type 0 where
  -- `SSL_ECH_KEYS_new`, `SSL_ECH_KEYS_add` with `is_retry_config` 1, `SSL_set_ech_keys`.
  keys_new : Call
  keys_add : Bytes → Call
  set_ech_keys : Call
  set_ech_grease_enabled : Call
  get_ech_retry_configs : Call
  set_ech_retry_callback : Call
  -- `SSL_CTX_set1_groups_list`, `SSL_set1_groups_list`, `ERR_clear_error`.
  ctx_set1_groups_list : Bytes → Call
  ssl_set1_groups_list : Bytes → Call
  clear_error : Call
  set_early_data_enabled : Call
  set_max_early_data_size : ℕ → Call
  set_permute_extensions : Call
  set_key_update_interval : ℕ → Call
  -- `UmaHistogramEnumeration` of "Net.ECH.Result", `UmaHistogramBoolean` of "Net.ECH.RetryApplied".
  record_result : EchResult → Call
  record_retry_applied : Call

abbrev pub Trace : Type 0
Trace = List Call

-- The answers may depend on all the calls before.
pub record SslEnv : Type 0 where
  -- Whether a call that can fail succeeds.
  pub accepts : Trace → Call → Bool
  -- What `SSL_get_ech_retry_configs` hands out; `none` for a null pointer.
  pub retry_configs : Trace → Option Bytes

-- ===== src/Metrics/Histograms.antt =====
-- metrics_instrumentation.cc: the functions that record a sample. Each is one call of a `UmaHistogram`
-- function; a number is never below 0, and times are microseconds.
use kiwi_network_patches.Prelude.{ℕ, Bool, if◌then◌else◌}
use kiwi_network_patches.Prelude.Bytes.{Bytes, text}

-- Which function of base/metrics is called; `exact_linear` has the exclusive maximum.
pub data Kind : Type 0 where
  exact_linear : ℕ → Kind
  counts_100 counts_1000 medium_times boolean sparse percentage : Kind

pub record Sample : Type 0 where
  pub histogram : Bytes
  pub kind : Kind
  pub value : ℕ

abbrev pub record_ech_result : ℕ → Sample
record_ech_result result = record {
  histogram = text "Network.Kiwi.ECH.Result";
  kind = exact_linear 5;
  value = result;
}

abbrev pub record_ech_config_source : ℕ → Sample
record_ech_config_source source = record {
  histogram = text "Network.Kiwi.ECH.ConfigSource";
  kind = exact_linear 3;
  value = source;
}

abbrev pub record_ech_retry_count : ℕ → Sample
record_ech_retry_count count = record {
  histogram = text "Network.Kiwi.ECH.RetryCount";
  kind = counts_100;
  value = count;
}

abbrev pub record_ech_latency : ℕ → Sample
record_ech_latency latency = record {
  histogram = text "Network.Kiwi.ECH.Latency";
  kind = medium_times;
  value = latency;
}

abbrev pub record_kyber_usage : Bool → Sample
record_kyber_usage used = record {
  histogram = text "Network.Kiwi.Kyber.Used";
  kind = boolean;
  value = if used then 1 else 0;
}

abbrev pub record_kyber_latency_overhead : ℕ → Sample
record_kyber_latency_overhead overhead = record {
  histogram = text "Network.Kiwi.Kyber.LatencyOverhead";
  kind = medium_times;
  value = overhead;
}

abbrev pub record_tls13_early_data : Bool → Sample
record_tls13_early_data used = record {
  histogram = text "Network.Kiwi.TLS13.EarlyData";
  kind = boolean;
  value = if used then 1 else 0;
}

abbrev pub record_tls_version : ℕ → Sample
record_tls_version version = record {
  histogram = text "Network.Kiwi.TLS.Version";
  kind = sparse;
  value = version;
}

abbrev pub record_http_protocol : ℕ → Sample
record_http_protocol protocol = record {
  histogram = text "Network.Kiwi.HTTP.Protocol";
  kind = exact_linear 4;
  value = protocol;
}

abbrev pub record_alt_svc_source : ℕ → Sample
record_alt_svc_source source = record {
  histogram = text "Network.Kiwi.AltSvc.Source";
  kind = exact_linear 3;
  value = source;
}

abbrev pub record_dns_query_type : ℕ → Sample
record_dns_query_type query_type = record {
  histogram = text "Network.Kiwi.DNS.QueryType";
  kind = exact_linear 3;
  value = query_type;
}

abbrev pub record_https_record_param_count : ℕ → Sample
record_https_record_param_count count = record {
  histogram = text "Network.Kiwi.DNS.HttpsRecordParamCount";
  kind = counts_100;
  value = count;
}

abbrev pub record_connection_security_score : ℕ → Sample
record_connection_security_score score = record {
  histogram = text "Network.Kiwi.Connection.SecurityScore";
  kind = percentage;
  value = score;
}

abbrev pub record_daily_ech_hosts : ℕ → Sample
record_daily_ech_hosts count = record {
  histogram = text "Network.Kiwi.ECH.DailyHosts";
  kind = counts_1000;
  value = count;
}

-- What the last function does with a `float`: the product with the `int` 100, and the cast to `int`.
pub record PercentOps (W : Type 0) : Type 0 where
  pub times_hundred : W → W
  pub to_int : W → ℕ

abbrev pub record_weekly_kyber_rate : {W : Type 0} → PercentOps W → W → Sample
record_weekly_kyber_rate ops rate = record {
  histogram = text "Network.Kiwi.Kyber.WeeklyRate";
  kind = percentage;
  value = ops.to_int (ops.times_hundred rate);
}

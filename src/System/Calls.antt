-- ===== src/System/Calls.antt =====
-- system_network_context_manager.cc and mojo_ipc_integration.cc together: what any calls on the
-- same parameters leave, in whatever order they come.
use kiwi_network_patches.Prelude.{
  ◌≡◌, refl, ◌∙◌, ap, Bool, true, false, ◌||◌, Option, none, some, List, [], ◌∷◌, ◌++◌, All,
  if◌then◌else◌, arith, Bool-cases, inl, inr,
}
use kiwi_network_patches.Prelude.Bytes.{Bytes, text}
use kiwi_network_patches.Platform.Features.{FeatureList, encrypted_client_hello}
use kiwi_network_patches.Mojo.{NetworkDefaults, apply_kiwi_network_context_config}
use kiwi_network_patches.System.{
  DnsOverHttpsServer, NetworkContextParams, kiwi_servers, add_kiwi_doh_providers,
  configure_http3_preference, configure_network_error_reporting,
}

pub data Call : Type 0 where
  doh http3 reporting mojo : Call

-- `ApplyKiwiNetworkContextConfig` on the parameters with all their fields.
abbrev apply_mojo : FeatureList → Option NetworkContextParams → Option NetworkContextParams
apply_mojo features none = none
apply_mojo features (some params) =
    elim (apply_kiwi_network_context_config features (some params.defaults)) [
      | none ↦ none
      | some defaults ↦ some (record params { defaults = defaults })
    ]

abbrev pub step : FeatureList → Call → Option NetworkContextParams → Option NetworkContextParams
step features doh params = add_kiwi_doh_providers params
step features http3 params = configure_http3_preference params
step features reporting params = configure_network_error_reporting params
step features mojo params = apply_mojo features params

-- The calls in order, the first one first.
abbrev pub run : FeatureList → List Call → Option NetworkContextParams → Option NetworkContextParams
run features [] params = params
run features (call ∷ calls) params = run features calls (step features call params)

abbrev pub same_call : Call → Call → Bool
same_call doh doh = true
same_call http3 http3 = true
same_call reporting reporting = true
same_call mojo mojo = true
same_call _ _ = false

-- Whether the function is among the calls.
abbrev pub is_called : Call → List Call → Bool
is_called call [] = false
is_called call (first ∷ calls) = same_call call first || is_called call calls

abbrev pub kiwi_defaults : NetworkDefaults
kiwi_defaults = record {
  default_ech_config = [];
  default_pq_key_exchange = text "X25519Kyber768Draft00:X25519";
}

abbrev posted : Bytes → DnsOverHttpsServer
posted host = record {
  server_template = text "https://" ++ (host ++ text "/dns-query");
  use_post = true;
}

-- Cloudflare, Google, Quad9, AliDNS and DNSPod, in this order, each asked by POST.
abbrev pub asked_servers : List DnsOverHttpsServer
asked_servers =
    posted (text "cloudflare-dns.com")
    ∷ posted (text "dns.google")
    ∷ posted (text "dns.quad9.net")
    ∷ posted (text "dns.alidns.com")
    ∷ posted (text "doh.pub")
    ∷ []

-- The parameters by which functions were called: each group of fields is the function's own.
abbrev pub expected : (Call → Bool) → NetworkContextParams → NetworkContextParams
expected called params = record {
  defaults = if called mojo then kiwi_defaults else params.defaults;
  dns_over_https_config = if called doh then some asked_servers else params.dns_over_https_config;
  dns_over_https_fallback = if called doh then true else params.dns_over_https_fallback;
  dns_over_https_attempts = if called doh then 3 else params.dns_over_https_attempts;
  enable_alt_svc_cache = if called http3 then true else params.enable_alt_svc_cache;
  alt_svc_cache_size = if called http3 then 5000 else params.alt_svc_cache_size;
  alt_svc_probe_interval_seconds =
      if called http3 then 10 else params.alt_svc_probe_interval_seconds;
  alt_svc_learn_interval_seconds =
      if called http3 then 300 else params.alt_svc_learn_interval_seconds;
  alt_svc_allow_non_secure = if called http3 then false else params.alt_svc_allow_non_secure;
  enable_reporting = if called reporting then true else params.enable_reporting;
  enable_network_error_logging =
      if called reporting then true else params.enable_network_error_logging;
}

expected_more :
    (call : Call) (calls : List Call) (params : NetworkContextParams)
    → expected (λ c. is_called c calls) (expected (λ c. same_call c call) params)
      ≡ expected (λ c. is_called c (call ∷ calls)) params
expected_more doh calls params = ground arith
expected_more http3 calls params = ground arith
expected_more reporting calls params = ground arith
expected_more mojo calls params = ground arith

step-expected :
    (features : FeatureList) (call : Call) (params : NetworkContextParams)
    → step features call (some params) ≡ some (expected (λ c. same_call c call) params)
unfolding add_kiwi_doh_providers configure_http3_preference configure_network_error_reporting
    apply_kiwi_network_context_config
step-expected features doh params = refl
step-expected features http3 params = refl
step-expected features reporting params = refl
step-expected features mojo params = elim (Bool-cases (features encrypted_client_hello)) [
  | inl on ↦ rw on
  | inr off ↦ rw off
]

-- Whichever of `AddKiwiDohProviders`, `ConfigureHttp3Preference`,
-- `ConfigureNetworkErrorReporting` and `ApplyKiwiNetworkContextConfig` are called on the
-- parameters, in whatever order and however often: each group of fields has the values of its
-- function if that was called, and is as before if not. The servers are Cloudflare, Google, Quad9,
-- AliDNS and DNSPod, each asked by POST over HTTPS, with fallback and three attempts.
pub run-expected :
    (features : FeatureList) (calls : List Call) (params : NetworkContextParams)
    → run features calls (some params) ≡ some (expected (λ c. is_called c calls) params)
run-expected features [] params = refl
run-expected features (call ∷ calls) params =
    ap (run features calls) (step-expected features call params)
    ∙ run-expected features calls _
    ∙ ap some (expected_more call calls params)

-- A server that is asked by POST over HTTPS.
pub record IsSecure (server : DnsOverHttpsServer) : Type 0 where
  pub rest : Bytes
  pub over_https : server.server_template ≡ text "https://" ++ rest
  pub by_post : server.use_post ≡ true

https-IsSecure :
    (rest : Bytes)
    → IsSecure (record { server_template = text "https://" ++ rest; use_post = true })
https-IsSecure rest = record { rest = rest; over_https = refl; by_post = refl }

kiwi_servers-IsSecure : All IsSecure kiwi_servers
kiwi_servers-IsSecure = (
  https-IsSecure (text "cloudflare-dns.com/dns-query"),
  (
    https-IsSecure (text "dns.google/dns-query"),
    (
      https-IsSecure (text "dns.quad9.net/dns-query"),
      (
        https-IsSecure (text "dns.alidns.com/dns-query"),
        (https-IsSecure (text "doh.pub/dns-query"), tt),
      ),
    ),
  ),
)

-- If `AddKiwiDohProviders` is among the calls, then behind them there is a list of servers, and
-- each is asked by POST over HTTPS.
pub run-IsSecure :
    (features : FeatureList) (calls : List Call) (params : NetworkContextParams)
    → is_called doh calls ≡ true
    → (q : NetworkContextParams) × (servers : List DnsOverHttpsServer) × (run features calls
          (some params)
        ≡ some q)
      × (q.dns_over_https_config ≡ some servers)
      × All IsSecure servers
run-IsSecure features calls params called = (
  expected (λ c. is_called c calls) params,
  kiwi_servers,
  run-expected features calls params,
  rw called,
  kiwi_servers-IsSecure,
)

-- ===== src/Proxy/Interception.antt =====
-- proxy_tls_interception.cc: which connections count as intercepted, and which PAC scripts ask for
-- DNS over HTTPS.
use kiwi_network_patches.Prelude.{
  ℕ, ◌≤◌, ◌≡◌, ◌↔◌, inl, inr, refl, Bool, true, false, not, ◌&&◌, ◌||◌, List, [], ◌∷◌, arith,
  Bool-cases,
}
use kiwi_network_patches.Prelude.Bytes.{Bytes, is_empty, text}
use kiwi_network_patches.Tls.Config.{SslConfig}
use kiwi_network_patches.Tls.Connection.{strstr}
use kiwi_network_patches.Tls.Connection.Result.{Occurs, strstr_iff}
use kiwi_network_patches.Proxy.{
  get_proxy_ech_compatibility, Evidence, is_enterprise_ca, is_connection_intercepted,
  reset_suspicion, check_pac_script, ProxyInfo, adjust_for_proxy_environment,
}
use mathlib.Core.Bool.{false≢true}

-- The first connection behind a new environment is reported exactly if its certificate looks like
-- one of an enterprise, and besides ECH failed without a retry config or no OCSP response came.
pub is_connection_intercepted-adjust :
    (proxy_info : ProxyInfo) (config : SslConfig) (score : ℕ) (e : Evidence)
    → (is_connection_intercepted e (adjust_for_proxy_environment proxy_info config score).1).0 ≡ (
        is_enterprise_ca e
        && ((not e.evidence_ech_accepted && is_empty e.ech_retry_config) || not e.ocsp_provided))
unfolding is_connection_intercepted adjust_for_proxy_environment reset_suspicion
    get_proxy_ech_compatibility
is_connection_intercepted-adjust proxy_info config score e = ground arith

-- The answers to a sequence of connections without a reset, and the score behind it.
abbrev pub observe : List Evidence → ℕ → ℕ
observe [] score = score
observe (e ∷ es) score = observe es (is_connection_intercepted e score).1

score-le : (e : Evidence) (score : ℕ) → score ≤ (is_connection_intercepted e score).1
unfolding is_connection_intercepted
score-le e score = ground arith

observe-le : (es : List Evidence) (score : ℕ) → score ≤ observe es score
observe-le [] score = omega arith
observe-le (e ∷ es) score =
    omega (arith, score-le e score, observe-le es (is_connection_intercepted e score).1)

intercepted-from :
    (e : Evidence) (score : ℕ) → 60 ≤ score → (is_connection_intercepted e score).0 ≡ true
unfolding is_connection_intercepted
intercepted-from e score h = ground arith

reported-score :
    (e : Evidence) (score : ℕ)
    → (is_connection_intercepted e score).0 ≡ true
    → 60 ≤ (is_connection_intercepted e score).1
unfolding is_connection_intercepted
reported-score e score h = ground arith

-- Once a connection is reported, every later one is until the next reset, whatever it looks like.
pub intercepted-observe :
    (e later : Evidence) (between : List Evidence) (score : ℕ)
    → (is_connection_intercepted e score).0 ≡ true
    → (is_connection_intercepted later (observe between (is_connection_intercepted e score).1)).0
      ≡ true
intercepted-observe e later between score h = intercepted-from later _ (
    omega
      (arith, reported-score e score h, observe-le between (is_connection_intercepted e score).1))

-- Whatever the proxy is, the configuration of the connection stays as it was, and the score starts
-- again.
pub adjust_for_proxy_environment-config :
    (proxy_info : ProxyInfo) (config : SslConfig) (score : ℕ)
    → adjust_for_proxy_environment proxy_info config score ≡ (config, 0)
unfolding adjust_for_proxy_environment reset_suspicion get_proxy_ech_compatibility
adjust_for_proxy_environment-config proxy_info config score = ground arith

abbrev pub check_all : List Bytes → Bool → Bool
check_all [] flag = flag
check_all (script ∷ scripts) flag = check_all scripts (check_pac_script script flag)

-- Some script names `dnsResolve`.
pub data Resolves : List Bytes → Type 0 where
  here :
      {script : Bytes} {scripts : List Bytes}
      → Occurs (text "dnsResolve") script
      → Resolves (script ∷ scripts)
  there : {script : Bytes} {scripts : List Bytes} → Resolves scripts → Resolves (script ∷ scripts)

check_all-true : (scripts : List Bytes) → check_all scripts true ≡ true
unfolding check_pac_script
check_all-true [] = refl
check_all-true (script ∷ scripts) = elim (Bool-cases (strstr (text "dnsResolve") script)) [
  | inl e ↦ rw e (check_all-true scripts)
  | inr e ↦ rw e (check_all-true scripts)
]

check_all-Resolves : (scripts : List Bytes) → check_all scripts false ≡ true → Resolves scripts
unfolding check_pac_script
check_all-Resolves [] h = absurd (false≢true h)
check_all-Resolves (script ∷ scripts) h = elim (Bool-cases (strstr (text "dnsResolve") script)) [
  | inl e ↦ here ((strstr_iff _ script).0 e)
  | inr e ↦ there (check_all-Resolves scripts (rw e at h))
]

check_all_of_Resolves :
    {scripts : List Bytes} (flag : Bool) → Resolves scripts → check_all scripts flag ≡ true
unfolding check_pac_script
check_all_of_Resolves flag (here {script} {scripts} o) =
    rw ((strstr_iff _ script).1 o) (check_all-true scripts)
check_all_of_Resolves flag (there {script} {scripts} r) = check_all_of_Resolves _ r

-- After any PAC scripts the flag is set exactly if `dnsResolve` stands in one of them.
pub check_pac_script_iff :
    (scripts : List Bytes) → (check_all scripts false ≡ true) ↔ Resolves scripts
check_pac_script_iff scripts = (check_all-Resolves scripts, check_all_of_Resolves false)

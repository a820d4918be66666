-- ===== src/Proxy/Score.antt =====
-- proxy_tls_interception.cc: the score of the detector against the connections that it has seen.
use kiwi_network_patches.Prelude.{
  ℕ, suc, ◌+◌, ◌*◌, ◌≤◌, ◌<◌, ◌≡◌, ◌↔◌, ◌∙◌, ap, Bool, true, not, ◌&&◌, List, [], ◌∷◌, length,
  arith, if◌then◌else◌,
}
use kiwi_network_patches.Prelude.Bytes.{is_empty}
use kiwi_network_patches.Tls.Config.{SslConfig}
use kiwi_network_patches.Proxy.{
  Evidence, is_enterprise_ca, is_connection_intercepted, ProxyInfo, adjust_for_proxy_environment,
}
use kiwi_network_patches.Proxy.Interception.{adjust_for_proxy_environment-config}

-- What the detector is called with: a connection, or a new environment.
pub data Seen : Type 0 where
  connection : Evidence → Seen
  environment : ProxyInfo → SslConfig → Seen

-- The score behind some calls, newest first.
abbrev pub score_after : List Seen → ℕ
score_after [] = 0
score_after (connection e ∷ older) = (is_connection_intercepted e (score_after older)).1
score_after (environment proxy_info config ∷ older) =
    (adjust_for_proxy_environment proxy_info config (score_after older)).1

-- The connections since the last new environment.
abbrev pub since : List Seen → List Evidence
since [] = []
since (connection e ∷ older) = e ∷ since older
since (environment proxy_info config ∷ older) = []

abbrev pub count_if : (Evidence → Bool) → List Evidence → ℕ
count_if test [] = 0
count_if test (e ∷ es) = if test e then suc (count_if test es) else count_if test es

-- The three signs: ECH failed without a retry config, a certificate like one of an enterprise, no
-- OCSP response.
abbrev pub ech_failed : Evidence → Bool
ech_failed e = not e.evidence_ech_accepted && is_empty e.ech_retry_config

abbrev pub no_ocsp : Evidence → Bool
no_ocsp e = not e.ocsp_provided

abbrev pub enterprise : Evidence → Bool
enterprise e = e.authority_invalid && not e.common_name_invalid

abbrev pub points : List Evidence → ℕ
points es = 30 * count_if ech_failed es + 40 * count_if enterprise es + 20 * count_if no_ocsp es

pub is_connection_intercepted-points :
    (e : Evidence) (es : List Evidence)
    → (is_connection_intercepted e (points es)).1 ≡ points (e ∷ es)
unfolding is_connection_intercepted is_enterprise_ca
is_connection_intercepted-points e es = ground arith

score_after-points : (seen : List Seen) → score_after seen ≡ points (since seen)
score_after-points [] = omega arith
score_after-points (connection e ∷ older) =
    ap (λ score. (is_connection_intercepted e score).1) (score_after-points older)
    ∙ is_connection_intercepted-points e (since older)
score_after-points (environment proxy_info config ∷ older) =
    ap (λ r. r.1) (adjust_for_proxy_environment-config proxy_info config (score_after older))
    ∙ omega arith

answer_iff :
    (e : Evidence) (score : ℕ)
    → ((is_connection_intercepted e score).0 ≡ true) ↔ (60 ≤ (is_connection_intercepted e score).1)
unfolding is_connection_intercepted
answer_iff e score = ground arith

-- After any connections and new environments, a connection is reported exactly if the signs of all
-- connections since the last new environment, its own included, come to 60 points: 30 for each with
-- ECH neither accepted nor given a retry config, 40 for each with a certificate like one of an
-- enterprise, 20 for each without an OCSP response.
pub is_connection_intercepted_iff :
    (e : Evidence) (seen : List Seen)
    → ((is_connection_intercepted e (score_after seen)).0 ≡ true) ↔ (60 ≤ points (e ∷ since seen))
is_connection_intercepted_iff e seen =
    rw (score_after-points seen, ← is_connection_intercepted-points e (since seen))
      (answer_iff e (points (since seen)))

-- A connection adds 90 points at most.
points-le : (es : List Evidence) → points es ≤ 90 * length es
points-le [] = omega arith
points-le (e ∷ es) = ground (arith, points-le es)

-- With fewer than 23860930 connections since the last new environment the score stays in the range
-- of a 32-bit `int`.
pub score_after-fits :
    (seen : List Seen) → length (since seen) < 23860930 → score_after seen < 2147483648
score_after-fits seen h = omega (arith, score_after-points seen, points-le (since seen))

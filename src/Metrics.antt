-- ===== src/Metrics.antt =====
-- metrics_instrumentation.cc: `CalculateSecurityScore`; `tls_version` is a number, never below 0.
pub mod Score
pub mod Histograms
use kiwi_network_patches.Prelude.{ℕ, ◌+◌, Bool, leb, if◌then◌else◌}

unfoldable pub calculate_security_score : Bool → Bool → Bool → Bool → ℕ → ℕ
calculate_security_score ech kyber http3 doh tls_version =
    let score1 = if doh then 20 else 0 in
    let score2 = if ech then score1 + 30 else score1 in
    let score3 = if kyber then score2 + 20 else score2 in
    let score4 = if http3 then score3 + 15 else score3 in
    if leb 0x0304 tls_version then score4 + 15 else score4

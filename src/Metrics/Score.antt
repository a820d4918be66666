-- ===== src/Metrics/Score.antt =====
-- metrics_instrumentation.cc: the score against the weights that its comment documents.
use kiwi_network_patches.Prelude.{
  ℕ, ◌+◌, ◌≤◌, ◌≡◌, ◌↔◌, Bool, true, ◌&&◌, if◌then◌else◌, arith, leb,
}
use kiwi_network_patches.Metrics.{calculate_security_score}

abbrev pub weight : Bool → ℕ → ℕ
weight b n = if b then n else 0

-- The score is the sum of the documented weights of the protections in use: 30 for ECH, 20 for
-- Kyber, 15 for HTTP/3, 20 for DNS over HTTPS, and 15 for TLS 1.3 or later. It is a percentage, and
-- full exactly if all of them are in use.
pub calculate_security_score-full :
    (ech kyber http3 doh : Bool) (tls_version : ℕ)
    → (calculate_security_score ech kyber http3 doh tls_version
        ≡ weight ech 30
          + weight kyber 20
          + weight http3 15
          + weight doh 20
          + weight (leb 0x0304 tls_version) 15)
      × (calculate_security_score ech kyber http3 doh tls_version ≤ 100)
      × ((calculate_security_score ech kyber http3 doh tls_version ≡ 100)
          ↔ ((ech && (kyber && (http3 && (doh && leb 0x0304 tls_version)))) ≡ true))
unfolding calculate_security_score
calculate_security_score-full ech kyber http3 doh tls_version =
    (ground arith, ground arith, (λ h. ground arith, λ h. ground arith))

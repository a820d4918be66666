-- ===== src/Tests/Suite.antt =====
-- The cases of ech_kyber_integration/unittests/, under their names, on the models.
mod Records
mod Retries
mod Handshakes

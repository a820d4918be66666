-- ===== src/Tests.antt =====
-- Concrete platforms, runs of the models, and the theorems at concrete inputs.
mod World
mod Caches
mod Dns
mod Tls
mod Retry
mod Request
mod Devices
mod Network
mod Threads
mod Settings
mod Suite

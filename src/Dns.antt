-- ===== src/Dns.antt =====
-- host_resolver_manager.cc: the HTTPS/SVCB record parser and the use of its results.
pub mod Record
pub mod Params
pub mod Parser
pub mod Process

-- ===== src/Lib.antt =====
-- Kiwi network patches: Encrypted ClientHello (ECH), post-quantum key exchange and HTTPS records
-- for a Chromium network stack, as the sources in ech_kyber_integration/ have them.
--
-- The resolver hands the raw HTTPS records of a name to a parser, and stores what the first valid
-- one says in a resolve context. A request takes its ECH configuration from there; a connection is
-- set up with it over TCP or QUIC. When a server rejects ECH, its retry config is cached and
-- applied; a monitor counts the results of each host and says when ECH is to be left out. Changes
-- of the network and QUIC migrations clear these counts.
--
-- * Dns models host_resolver_manager.cc: Dns/Record the `HttpsRecordResult`, Dns/Params the
--   handlers of the parameters, Dns/Parser the class `HttpsRecordParser`, Dns/Process the functions
--   `ProcessHttpsRecord` and `ShouldUpgradeHttpToHttps`. Dns/Parser/Grammar has the grammar of the
--   wire format that the parser is compared with, Dns/Parser/Meaning what the fields of a result
--   say of the parameters, each on its own, and Dns/Params/KeySet the set of mandatory keys as a
--   quotient of the lists that hold it.
-- * Tls models ssl_client_socket.cc: Tls/EchManager the class `ECHManager`, Tls/Config the profiles
--   and the fields of `SSLConfig`, Tls/Connection the other settings, `ConfigureKiwiSSL` and
--   `AnalyzeKiwiSSLResult`.
-- * Retry models ech_retry_handler.cc: Retry/Cache the class `ECHRetryConfigCache` and
--   `HandleECHRetry`, Retry/Monitor the class `ECHDegradationMonitor`.
-- * Quic models quic_ech_integration.cc, Request url_request_http_job.cc, Mojo
--   mojo_ipc_integration.cc, Proxy proxy_tls_interception.cc, Android android_network_config.cc
--   (Android/Vpn the class `VPNCompatibility`), System system_network_context_manager.cc, Flags
--   networking_features.cc, and Metrics metrics_instrumentation.cc.
-- * Network has the state that the singletons of these files keep, and every call that changes it as
--   a step with its label; Network/Perform is what each label does, as a function, Network/Objects
--   which of the objects it works on, Network/Invariant what holds of the reachable states, and
--   Network/Abstract the state as the calls alone describe it, which the reachable states refine. A
--   switch of the network is a step as a whole, and its parts are steps too, so that calls of other
--   threads may come in the middle of it, as in Android/Interleaving.
-- * Prelude has the shared names: byte strings, and the two loops that the sources write over and
--   over, on a CBS (Prelude/Drain) and on the positions of a string (Prelude/Scan), each with one
--   theorem on inputs that are sequences of items. Prelude/Tlv is the item of tag, length, value.
-- * Platform has what is not in the repository: BoringSSL, its CBS, Chromium's LRU cache, resolve
--   context, DNS numbers and feature list, each a record of operations; where the code relies on
--   documented behaviour, a second record states it.
-- * Tests has concrete platforms with that behaviour, runs, and the theorems at concrete inputs;
--   Tests/Suite repeats the cases of ech_kyber_integration/unittests/.
--
-- A definition carries the name of the C++ function in snake_case. A `std::string` or a buffer is a
-- list of bytes. Functions that call BoringSSL take the trace of the calls so far, newest first,
-- and return it with theirs in front; every call that can fail is answered by an arbitrary
-- environment, which may look at the trace. Objects with locks are states that each method changes
-- in one step. Times are microseconds. Counters of type `int` are exact numbers.
--
-- Every loop runs on fuel: one more than there are bytes to read, of which each round reads one at
-- least. Running out of fuel is a value of its own, `none` or `out_of_fuel`. In a loop over
-- the positions of a parameter's value it would leave the list as it was.
--
-- Not modelled: logging, tracing, and the histograms of proxy_tls_interception.cc; the strings
-- that describe the feature switches to the user, and `FeatureEntry` lists that stand in comments;
-- patches, build files and tests; constants that nothing reads, and the constructors of the
-- singletons. `HandleInterception` calls a method that no class declares, which is an argument of
-- its model. Floats are a parameter: their rounding is only taken to be monotone.
pub mod Prelude
pub mod Platform
pub mod Flags
pub mod Dns
pub mod Tls
pub mod Retry
pub mod Quic
pub mod System
pub mod Request
pub mod Mojo
pub mod Proxy
pub mod Android
pub mod Metrics
pub mod Network
mod Tests

-- ===== src/Tls.antt =====
-- ssl_client_socket.cc: ECH and the other TLS settings of a connection.
pub mod EchManager
pub mod Config
pub mod Connection

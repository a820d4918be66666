-- ===== src/Platform.antt =====
-- What the sources call and do not define: parameters of the model, with the documented behaviour
-- that the theorems rely on.
pub mod Features
pub mod Float
pub mod Bytestring
pub mod DnsProtocol
pub mod ResolveContext
pub mod BoringSsl
pub mod LruCache

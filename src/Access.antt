-- ===== src/Access.antt =====
-- internal/access and internal/clientip: who may use the proxy.
pub mod ClientIp
pub mod Config
pub mod Middleware

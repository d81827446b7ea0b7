-- ===== src/Dns.antt =====
-- internal/dns: the name server that points the listed names at the cache.
pub mod Config
pub mod Server

-- ===== src/Proxy.antt =====
-- internal/proxy: the registry proxy, from the path of a request to what the client and the cache
-- get.
pub mod Pool
pub mod Headers
pub mod Upstream
pub mod Route
pub mod Fetch
pub mod Blob
pub mod Resource
pub mod HfMirror

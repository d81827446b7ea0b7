-- ===== src/Cache.antt =====
-- The blob cache on disk: server/internal/cache/cache.go.
pub mod Policy
pub mod Key
pub mod Disk
pub mod Stream
pub mod Store

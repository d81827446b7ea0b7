-- ===== src/Ratelimit.antt =====
-- internal/ratelimit: the token buckets that limit logins and writes.
pub mod Limiter

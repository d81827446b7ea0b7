-- ===== src/Preheat.antt =====
-- Preheating: server/internal/preheat/runner.go, which fetches what a task names through this cache,
-- and the tables of its tasks.
pub mod Image
pub mod Fetch
pub mod Runner

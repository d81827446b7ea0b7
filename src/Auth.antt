-- ===== src/Auth.antt =====
-- The administration's accounts: server/internal/storage/auth.go and server/internal/api/auth.go.
pub mod Accounts
pub mod Handlers
pub mod Setup

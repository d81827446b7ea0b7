-- ===== src/Api.antt =====
-- The handlers of the administration, server/internal/api: what each checks of a request, what it
-- calls, and what it answers.
pub mod Requests
pub mod Access
pub mod Settings
pub mod Dns
pub mod Rules
pub mod Tasks
pub mod Registry
pub mod Steam
pub mod Globs
pub mod Models

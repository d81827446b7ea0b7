-- ===== src/Storage.antt =====
-- The SQLite store: server/internal/storage. A table is the list of its rows in the order of their
-- ids; a statement is a function on tables. `now` is the clock's Unix time, in seconds.
pub mod Entries
pub mod Cleanup
pub mod Like
pub mod Rules
pub mod Sql
pub mod Preheats
pub mod Resources
pub mod Settings
pub mod DnsConfigs
pub mod SteamApps
pub mod Registries

-- ===== src/Lib.antt =====
-- CNCacheHub: a caching proxy for container registries.
--
-- The program answers the registry protocol under /v2/. A request passes the access control
-- (server/internal/access, with the client's address from server/internal/clientip), is routed to
-- a registry and a repository, and a blob is served from the cache on disk
-- (server/internal/cache) or streamed from the upstream to the client and the cache at once
-- (server/internal/proxy). Each blob in the cache has a row in SQLite
-- (server/internal/storage), which hits touch and cleanup tasks delete
-- (server/cmd/cncachehub/main.go). The administration's handlers (server/internal/api) stand behind a
-- guard (server/internal/api/auth.go) and change the settings, the upstreams and the tasks. Beside
-- them stand token buckets for logins and writes (server/internal/ratelimit) and a small name server
-- that points listed names at the cache (server/internal/dns). Files of other sites are served
-- under /r/ and, for Hugging Face, under /hf/
-- (server/internal/proxy/resource.go and hf_mirror.go), and tasks fetch images and models through
-- this program ahead of time (server/internal/preheat).
--
-- The files and what they model:
--   Prelude and its children: the libraries' names, Boolean tests on numbers, lists measured by
--     native numbers, results and signed numbers.
--   Text and FilePath: the functions of Go's strings and path/filepath that the code calls, on
--     texts as lists of bytes, with their laws.
--   Cache/Policy: ShouldBypass. Cache/Key: safeRel, validDigest and blobPath. Cache/Disk: the files
--     by path. Cache/Stream: fileStreamWriter with Write and Close. Cache/Store: FileStore with
--     Stat, Get, Delete, OpenStream and Put.
--   Storage/Entries: the rows of cache_entries and their statements (storage/cache_entry.go).
--     Storage/Cleanup: RunLRU and RunCapacity (storage/cleanup.go). Storage/Like: the search
--     patterns (storage/like_escape.go). Storage/Rules: MatchPath (storage/resource.go).
--     Storage/Sql: the statements as functions of a table's rows. Storage/Resources: the rules and
--     files of the resource proxy (storage/resource.go). Storage/Preheats: the tasks and their
--     items (storage/preheat_task.go). Storage/Settings, Storage/Registries and Storage/SteamApps: the
--     settings, the upstreams with their credentials, and the apps of Steam (storage/settings.go,
--     registry_upstreams.go and steam_appid.go). Storage/DnsConfigs: the name server's row
--     (storage/dns.go).
--   Cleaner: runCleanup, dryRunCleanup and deleteFilesForReport of main.go, on rows and files.
--   Proxy/Pool: the upstreams by name. Proxy/Headers: the headers that pass. Proxy/Upstream:
--     RoundTrip and the tokens. Proxy/Route: what a path asks for. Proxy/Fetch: fetchAndCache and
--     safeMultiWriter. Proxy/Blob: handleBlob, which ties the cache, the rows and the upstream
--     together. Proxy/Resource: ServeHTTP of the resource proxy and what it calls (proxy/resource.go).
--     Proxy/HfMirror: the mirror in front of it (proxy/hf_mirror.go).
--   Preheat/Image: what a task's target names. Preheat/Fetch: how it is fetched. Preheat/Runner: the
--     runs of tasks and their cancellation (server/internal/preheat/runner.go).
--   Access/ClientIp, Access/Config, Access/Middleware: the client's address and who is served.
--   Ratelimit/Limiter: the buckets and the limiter's map.
--   Dns/Config, Dns/Server: the name server's rules, its counts, and its start, stop and reload.
--   Api/Requests: the body of a request and the check for an administrator. Api/Access, Api/Settings,
--     Api/Dns, Api/Rules, Api/Registry, Api/Tasks, Api/Steam, Api/Globs and Api/Models: the handlers of
--     access_handlers.go, settings_handlers.go, dns_handlers.go, resource_handlers.go,
--     registry_handlers.go, preheat_task_handlers.go, steam_appid_handlers.go and
--     huggingface_handlers.go in server/internal/api, each with the state that it changes, and the
--     functions of main.go that stand between them and the tables.
--   Auth/Accounts: the users and sessions of the administration (storage/auth.go). Auth/Handlers:
--     login, logout and the guard (server/internal/api/auth.go). Auth/Setup: the first start and
--     the change of a password (the same file).
--   Tests: the code at concrete inputs.
--
-- State is passed explicitly: a Disk maps paths to contents, a Table holds rows in the order of
-- their ids, and every handler takes the state and gives the new one with its answer. What the
-- kernel, the network, the DNS library and Go's package net answer comes in as arguments, as flags
-- or functions, so that each failure can be chosen; a write says what it comes to chunk by chunk.
-- An int64 size is an integer of Prelude.Int where it may be negative; other numbers are natural.
-- The limits that follow from the settings are taken modulo 2^64, as the code's products are.
--
-- A turn of a preheat task says how long its item takes, and a run how long it takes in all: the
-- writes of an item are lost after ten seconds, and those of a task's status after thirty.
--
-- Bounds: the loops of RunLRU and RunCapacity have the code's own limit of a thousand rounds. The
-- loop of itoa has twenty rounds for the nineteen digits of an int64, and the loop of
-- deleteFilesForReport one round for each row, each of which deletes one. The token buckets count
-- exact parts of a token where the code has float64.
--
-- The sum BytesTotal of huggingface_handlers.go is a natural number without a bound, and a token that
-- fetchAndCache is given is not kept for the next blob: each fetch starts from the pool's tokens.
--
-- Not modelled: contents of log lines and error texts, the access log channel, goroutines and
-- locks (each operation is one step; a task's goroutine runs in one step whose turns say when the
-- cancel reaches it), directories, SQL itself and failures of the database other than those a flag
-- stands for, the length that net/http holds an answer to, the handlers that only hand on what a
-- statement returns or print a client's configuration, the audit log, diagnostics, and the web
-- interface.
mod Prelude
mod Text
mod FilePath
pub mod Cache
pub mod Storage
pub mod Ratelimit
pub mod Access
pub mod Api
pub mod Dns
pub mod Proxy
pub mod Preheat
pub mod Cleaner
pub mod Auth
mod Tests

-- ===== src/Lib.antt =====
-- The lynx-agent daemon: a Rust program that runs on a managed server, takes signed commands from a
-- dashboard, and applies them to nftables, WireGuard, nginx, podman and PostgreSQL. Paths are from
-- the root of the repository.
--
-- Common: texts as lists of UTF-8 bytes, tests, lists and parsing over the native numbers.
-- State: src/state.rs. One record for `AppState`, one function per method; the two watchdogs of
--   src/main.rs. State/Lockdown runs events one after the other, State/Race interleaves the two
--   stores of `set_lockdown` with a clear, State/Rate counts what the limiter lets through.
-- Runtime: src/error.rs, the types of src/auth/mod.rs, the tables of migrations/, and a state monad
--   in which an error or a panic keeps the state. The machine (processes, files, clock, queries,
--   network), the cryptography and serde_json are interfaces: records that every definition takes.
-- Auth: src/auth/mod.rs. `verify_command` with its steps, over the table of nonces; Auth/Soundness
--   and Auth/Completeness are about what it accepts, Auth/Replay about runs of its last step.
-- Audit: src/audit/mod.rs. `append` and the hash of an entry, over the table of the log; Audit/Race
--   interleaves the statements of two calls. Runtime/Reads is about calls that leave the machine alone
--   but for the time, ids and queries.
-- Podman: src/podman/mod.rs. Tenant users, subordinate ids and the podman calls.
-- Nftables: src/nftables/. The rendering of a ruleset, its application, and one round of the
--   divergence check. Nftables/Host writes the URLs whose host the rules are given.
-- Cert: src/cert.rs. The certificate of the agent and the key of the CA.
-- Handlers: src/handlers/. One function per command; Handlers/System has the match on the command's
--   type and the paths by which a command comes in, with `heartbeat_handler` of src/main.rs.
-- Update: src/update/. The checks of a download, the swap of the binary, the guard of a start, the
--   order of versions, and a turn of the updater that works without the dashboard.
-- Sync: src/sync/mod.rs. The cursor over the audit log, a batch, and the loop up to any turn.
-- WsClient: src/ws_client.rs. The messages of the socket with the gate of the lockdown, the session as
--   a sequence of events, and the loop of connections with its back-off.
-- Conflict: src/conflict.rs. One round of the search for software that changes the firewall.
-- NginxWatchdog: src/nginx.rs. One round of the watchdog.
-- Startup: src/main.rs between the migrations and the server.
-- Daemon: src/main.rs. Daemon/Cli has the subcommands, Daemon/Listener the choice between mTLS and
--   plain HTTP, Daemon/Routes the router, and Daemon/Turns one turn of each of the tasks that main
--   starts, over the one state that they share; Daemon/Invariants is about sequences of them,
--   Daemon/Recovery about a watchdog's turn and a request after it.
-- Settings: src/config.rs. The configuration, from the environment and the files that it names.
-- Metrics: src/metrics/ and src/handlers/metrics.rs. The texts of /proc, the samples, and their stream,
--   over floating point numbers that are a parameter.
-- Tests: concrete runs.
--
-- A command goes through the rate limiter of State, `verify_command` of Auth, the match of
-- Handlers/System, a handler, which calls Podman, Nftables or the machine, and `append` of Audit. It
-- comes in by HTTP (Handlers/System) or by the socket (WsClient). The background tasks share AppState
-- and the tables with the handlers; Sync reads the log that all of them write.
--
-- Bounds: times are seconds, a u64 or i64 keeps its wrap-around, as bit patterns modulo 2^64; ports
-- are modulo 2^16. Loops over a list or a fixed number of attempts are recursion on these. An endless
-- loop (run_sync_task, run_ws_client, run_session, stream_metrics) is modelled up to a turn n, for
-- every n; the other tasks by one turn. `decimal` writes up to twenty digits, which hold every u64.
--
-- Not modelled: the sockets, rustls, axum, logging and timers under src/main.rs; the arithmetic
-- of floating point numbers; the text inside an internal error, which is only logged. Two
-- commands do not run at the same time, but for State/Race and Audit/Race. A background task that
-- a handler starts is recorded by its arguments; the bodies of the updater are in Update. The
-- frames and rows that serde_json encodes are values, or an encoding that is a parameter. White
-- space is that of ASCII. Which of several rows of the same time a query gives is a choice of the
-- database for `append`, and the older row for Sync. The redirects that reqwest follows are inside
-- its `get`, which is a parameter; a log line counts by its level where its arguments can panic.
pub mod Common
pub mod State
pub mod Runtime
pub mod Auth
pub mod Audit
pub mod Podman
pub mod Nftables
pub mod Cert
pub mod Update
pub mod Sync
pub mod WsClient
pub mod Conflict
pub mod NginxWatchdog
pub mod Startup
pub mod Daemon
pub mod Settings
pub mod Metrics
pub mod Handlers
mod Tests

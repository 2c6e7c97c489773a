-- ===== src/Tests.antt =====
-- Runs on concrete inputs, and examples at which the theorems apply.
mod Fixture
mod Gauges
mod State
mod Auth
mod Audit
mod Handlers
mod Nftables
mod WsClient
mod Background
mod Startup
mod Settings
mod Metrics
mod Daemon
mod Recovery

-- ===== src/Daemon.antt =====
-- src/main.rs: the subcommands, the listener, the routes, and the tasks that share the state.
pub mod Cli
pub mod Listener
pub mod Routes
pub mod Turns
pub mod Invariants
pub mod Recovery

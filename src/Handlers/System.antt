-- ===== src/Handlers/System.antt =====
-- src/handlers/system.rs: the commands by name, and the paths on which a command comes in.
mod Maintenance
mod Commands
mod Execute
pub mod Permissions
pub mod Execution
pub mod Rejection
pub mod Lockdown
pub mod Growth
pub mod Heartbeat
pub mod Recovery
unfoldable pub use Maintenance.{
  handle_update_self, handle_dashboard_migrate, handle_cert_update, update_database_url_credential,
  handle_db_rotate_password, handle_vps_reboot,
}
unfoldable pub use Commands.{kind_of, find_kind, command_type, dispatch, command_dispatch}
unfoldable pub use Execute.{
  sanitize_error, audit_result_of, run_verified_command, execute_command, heartbeat_handler,
  record_result, unknown_entry, executed_entry, refuse_rate, refuse_unverified,
}
pub use Commands.{Kind, command_names}
pub use Execute.{HeartbeatReply, execute_verified, token_of}

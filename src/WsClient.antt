-- ===== src/WsClient.antt =====
-- src/ws_client.rs: the connection to the dashboard. The socket and serde_json's
-- reading of a command are parameters; a frame stands for the text that serde_json prints of it.
mod Message
mod Session
pub mod Growth
pub mod Gate
pub mod Backoff
unfoldable pub use Message.{
  is_ack_peek, peek_inner_command_type, respond, gate_command, on_command, handle_message,
}
pub use Message.{Frame, Event, Socket, req_id, run_and_respond}
unfoldable pub use Session.{
  ws_url_of, next_backoff, backoff_after, connect_once, connect_loop, run_ws_client,
}
pub use Session.{backoff_base}

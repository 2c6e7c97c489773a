-- ===== src/Handlers/Wireguard.antt =====
-- src/handlers/wireguard.rs: keys, tunnels and peers.
mod Names
mod Psk
mod DataPlane
mod Management
pub mod Suffix
unfoldable pub use Names.{iface_suffix, interface_of, is_boundary, remove_dashes, slice_panics}
unfoldable pub use Psk.{
  handle_wg_rotate_psk, set_private, persist_psk, update_conf, replace_psk, replace_lines,
}
unfoldable pub use DataPlane.{
  handle_wg_data_plane_setup, handle_wg_data_plane_teardown, sync_conf, peer_allowed_of,
}
unfoldable pub use Management.{
  handle_wg_management_add_peer, handle_wg_management_remove_peer, handle_wg_management_list_peers,
}

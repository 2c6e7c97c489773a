-- ===== src/Handlers/System/Permissions.antt =====
-- The permission that each command asks for.
use panel_agent.Common.{◌≡◌, Bool, true, false, arith}
use panel_agent.Runtime.{
  Env, VerifiedCommand, AgentError, Agent, Outcome, ok, err, panicked, Answer, PermissionLevel,
  perm_lt,
}
use panel_agent.Handlers.Containers.{
  handle_tenant_ensure, handle_container_deploy, handle_container_down, handle_container_start,
  handle_container_stop, handle_container_remove, handle_container_restart, handle_container_update,
}
use panel_agent.Handlers.Nftables.{
  handle_nftables_apply, handle_nftables_restore, handle_nftables_accept,
}
use panel_agent.Handlers.Nginx.{
  handle_nginx_deploy, handle_nginx_update_config, handle_nginx_install_cert, handle_certbot_obtain,
  handle_close_setup_port,
}
use panel_agent.Handlers.Wireguard.{
  handle_wg_rotate_psk, handle_wg_management_add_peer, handle_wg_management_remove_peer,
  handle_wg_management_list_peers, handle_wg_data_plane_setup, handle_wg_data_plane_teardown,
}
use panel_agent.Handlers.System.Maintenance.{
  handle_update_self, handle_dashboard_migrate, handle_cert_update, handle_db_rotate_password,
  handle_vps_reboot,
}
use panel_agent.Handlers.System.Commands.{Kind, kind_of, command_type, dispatch, command_dispatch}

-- The least permission that a command of the kind is executed with.
unfoldable pub requires : Kind → PermissionLevel
requires Kind.nftables_apply = PermissionLevel.write
requires Kind.nftables_restore = PermissionLevel.write
requires Kind.nftables_accept = PermissionLevel.write
requires Kind.container_list = PermissionLevel.read
requires Kind.tenant_ensure = PermissionLevel.write
requires Kind.container_deploy = PermissionLevel.write
requires Kind.container_down = PermissionLevel.destructive
requires Kind.container_start = PermissionLevel.write
requires Kind.container_stop = PermissionLevel.write
requires Kind.container_remove = PermissionLevel.destructive
requires Kind.container_restart = PermissionLevel.write
requires Kind.container_update = PermissionLevel.write
requires Kind.update_self = PermissionLevel.write
requires Kind.wg_rotate_psk = PermissionLevel.write
requires Kind.wg_management_add_peer = PermissionLevel.write
requires Kind.wg_management_remove_peer = PermissionLevel.write
requires Kind.wg_management_list_peers = PermissionLevel.write
requires Kind.wg_data_plane_setup = PermissionLevel.write
requires Kind.wg_data_plane_teardown = PermissionLevel.write
requires Kind.dashboard_migrate = PermissionLevel.write
requires Kind.cert_update = PermissionLevel.write
requires Kind.vps_reboot = PermissionLevel.write
requires Kind.nginx_deploy = PermissionLevel.write
requires Kind.nginx_update_config = PermissionLevel.write
requires Kind.nginx_install_cert = PermissionLevel.write
requires Kind.certbot_obtain = PermissionLevel.write
requires Kind.nftables_close_setup_port = PermissionLevel.write
requires Kind.db_rotate_password = PermissionLevel.write
requires Kind.agent_heartbeat_ack = PermissionLevel.read
requires Kind.other = PermissionLevel.read

unfoldable pub is_forbidden : Outcome AgentError Answer → Bool
is_forbidden (ok _) = false
is_forbidden (err (AgentError.forbidden _)) = true
is_forbidden (err _) = false
is_forbidden panicked = false

module _ (e : Env) where
  open e use {json, machine}

  abbrev IsRefused : Kind → VerifiedCommand json.Value → Agent machine.World → Type 0
  IsRefused k cmd s = (is_forbidden (dispatch e k cmd s).0 ≡ true) × ((dispatch e k cmd s).1 ≡ s)

  -- By the kind: with too low a permission nothing is read and nothing is done.
  dispatch_gate :
      (k : Kind) (cmd : VerifiedCommand json.Value) (s : Agent machine.World)
      → perm_lt cmd.permission (requires k) ≡ true
      → IsRefused k cmd s
  unfolding dispatch requires is_forbidden handle_nftables_apply handle_nftables_restore
      handle_nftables_accept handle_tenant_ensure handle_container_deploy handle_container_down
      handle_container_start handle_container_stop handle_container_remove handle_container_restart
      handle_container_update handle_update_self handle_wg_rotate_psk handle_wg_management_add_peer
      handle_wg_management_remove_peer handle_wg_management_list_peers handle_wg_data_plane_setup
      handle_wg_data_plane_teardown handle_dashboard_migrate handle_cert_update handle_vps_reboot
      handle_nginx_deploy handle_nginx_update_config handle_nginx_install_cert handle_certbot_obtain
      handle_close_setup_port handle_db_rotate_password
  dispatch_gate Kind.nftables_apply cmd s low = ground arith
  dispatch_gate Kind.nftables_restore cmd s low = ground arith
  dispatch_gate Kind.nftables_accept cmd s low = ground arith
  dispatch_gate Kind.container_list cmd s low = ground arith
  dispatch_gate Kind.tenant_ensure cmd s low = ground arith
  dispatch_gate Kind.container_deploy cmd s low = ground arith
  dispatch_gate Kind.container_down cmd s low = ground arith
  dispatch_gate Kind.container_start cmd s low = ground arith
  dispatch_gate Kind.container_stop cmd s low = ground arith
  dispatch_gate Kind.container_remove cmd s low = ground arith
  dispatch_gate Kind.container_restart cmd s low = ground arith
  dispatch_gate Kind.container_update cmd s low = ground arith
  dispatch_gate Kind.update_self cmd s low = ground arith
  dispatch_gate Kind.wg_rotate_psk cmd s low = ground arith
  dispatch_gate Kind.wg_management_add_peer cmd s low = ground arith
  dispatch_gate Kind.wg_management_remove_peer cmd s low = ground arith
  dispatch_gate Kind.wg_management_list_peers cmd s low = ground arith
  dispatch_gate Kind.wg_data_plane_setup cmd s low = ground arith
  dispatch_gate Kind.wg_data_plane_teardown cmd s low = ground arith
  dispatch_gate Kind.dashboard_migrate cmd s low = ground arith
  dispatch_gate Kind.cert_update cmd s low = ground arith
  dispatch_gate Kind.vps_reboot cmd s low = ground arith
  dispatch_gate Kind.nginx_deploy cmd s low = ground arith
  dispatch_gate Kind.nginx_update_config cmd s low = ground arith
  dispatch_gate Kind.nginx_install_cert cmd s low = ground arith
  dispatch_gate Kind.certbot_obtain cmd s low = ground arith
  dispatch_gate Kind.nftables_close_setup_port cmd s low = ground arith
  dispatch_gate Kind.db_rotate_password cmd s low = ground arith
  dispatch_gate Kind.agent_heartbeat_ack cmd s low = ground arith
  dispatch_gate Kind.other cmd s low = ground arith

  -- A command whose permission is below the one that its type requires is answered with an error
  -- `Forbidden`, and the state, the tables and the machine are as they were.
  pub command_dispatch_gate :
      (cmd : VerifiedCommand json.Value) (s : Agent machine.World)
      → perm_lt cmd.permission (requires (kind_of (command_type e cmd))) ≡ true
      → (is_forbidden (command_dispatch e cmd s).0 ≡ true) × ((command_dispatch e cmd s).1 ≡ s)
  unfolding command_dispatch
  command_dispatch_gate cmd s low = dispatch_gate (kind_of (command_type e cmd)) cmd s low

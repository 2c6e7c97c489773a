-- ===== src/Handlers/System/Commands.antt =====
-- `command_dispatch` of src/handlers/system.rs.
use panel_agent.Common.{Option, none, some, List, [], ◌∷◌, Text, txt, text_eq, if◌then◌else◌}
use panel_agent.Runtime.{
  Env, VerifiedCommand, AgentError, M, ◌>>=◌, ◌>>◌, pure, throw, ask, modify_app, Answer, answer_ok,
}
use panel_agent.State.{heartbeat_ack}
use panel_agent.Auth.{get_str}
use panel_agent.Handlers.Containers.{
  handle_container_list, handle_tenant_ensure, handle_container_deploy, handle_container_down,
  handle_container_start, handle_container_stop, handle_container_remove, handle_container_restart,
  handle_container_update,
}
use panel_agent.Handlers.Nftables.{
  handle_nftables_apply, handle_nftables_restore, handle_nftables_accept,
}
use panel_agent.Handlers.Nginx.{
  handle_nginx_deploy, handle_nginx_update_config, handle_nginx_install_cert, handle_certbot_obtain,
  handle_close_setup_port,
}
use panel_agent.Handlers.Wireguard.{
  handle_wg_rotate_psk, handle_wg_management_add_peer, handle_wg_management_remove_peer,
  handle_wg_management_list_peers, handle_wg_data_plane_setup, handle_wg_data_plane_teardown,
}
use panel_agent.Handlers.System.Maintenance.{
  handle_update_self, handle_dashboard_migrate, handle_cert_update, handle_db_rotate_password,
  handle_vps_reboot,
}

-- The arms of the match.
pub data Kind : Type 0 where
  nftables_apply nftables_restore nftables_accept : Kind
  container_list tenant_ensure container_deploy container_down container_start : Kind
  container_stop container_remove container_restart container_update : Kind
  update_self : Kind
  wg_rotate_psk wg_management_add_peer wg_management_remove_peer wg_management_list_peers : Kind
  wg_data_plane_setup wg_data_plane_teardown : Kind
  dashboard_migrate cert_update vps_reboot : Kind
  nginx_deploy nginx_update_config nginx_install_cert certbot_obtain : Kind
  nftables_close_setup_port db_rotate_password agent_heartbeat_ack : Kind
  other : Kind

-- The patterns of the match, in its order.
abbrev pub command_names : List (Text × Kind)
unfolding txt
command_names =
    (txt "nftables.apply", Kind.nftables_apply)
    ∷ (txt "nftables.restore", Kind.nftables_restore)
    ∷ (txt "nftables.accept", Kind.nftables_accept)
    ∷ (txt "container.list", Kind.container_list)
    ∷ (txt "tenant.ensure", Kind.tenant_ensure)
    ∷ (txt "container.deploy", Kind.container_deploy)
    ∷ (txt "container.down", Kind.container_down)
    ∷ (txt "container.start", Kind.container_start)
    ∷ (txt "container.stop", Kind.container_stop)
    ∷ (txt "container.remove", Kind.container_remove)
    ∷ (txt "container.restart", Kind.container_restart)
    ∷ (txt "container.update", Kind.container_update)
    ∷ (txt "update.self", Kind.update_self)
    ∷ (txt "wg.rotate_psk", Kind.wg_rotate_psk)
    ∷ (txt "wg.management.add_peer", Kind.wg_management_add_peer)
    ∷ (txt "wg.management.remove_peer", Kind.wg_management_remove_peer)
    ∷ (txt "wg.management.list_peers", Kind.wg_management_list_peers)
    ∷ (txt "wg.data_plane.setup", Kind.wg_data_plane_setup)
    ∷ (txt "wg.data_plane.teardown", Kind.wg_data_plane_teardown)
    ∷ (txt "dashboard.migrate", Kind.dashboard_migrate)
    ∷ (txt "cert.update", Kind.cert_update)
    ∷ (txt "vps.reboot", Kind.vps_reboot)
    ∷ (txt "nginx.deploy", Kind.nginx_deploy)
    ∷ (txt "nginx.update_config", Kind.nginx_update_config)
    ∷ (txt "nginx.install_cert", Kind.nginx_install_cert)
    ∷ (txt "certbot.obtain", Kind.certbot_obtain)
    ∷ (txt "nftables.close_setup_port", Kind.nftables_close_setup_port)
    ∷ (txt "db.rotate_password", Kind.db_rotate_password)
    ∷ (txt "agent.heartbeat_ack", Kind.agent_heartbeat_ack)
    ∷ []

unfoldable pub find_kind : List (Text × Kind) → Text → Kind
find_kind [] name = Kind.other
find_kind (n ∷ ns) name = let rest = find_kind ns name in if text_eq name n.0 then n.1 else rest

unfoldable pub kind_of : Text → Kind
unfolding find_kind
kind_of name = find_kind command_names name

abbrev unwrap_or : Text → Option Text → Text
unwrap_or d none = d
unwrap_or d (some t) = t

module _ (e : Env) where
  open e use {json, machine}
  open json use {Value}
  open machine use {World, instant}

  -- `.get("type").and_then(|v| v.as_str()).unwrap_or("unknown")`
  unfoldable pub command_type : VerifiedCommand Value → Text
  unfolding txt
  command_type cmd = unwrap_or (txt "unknown") (get_str json (txt "type") cmd.command)

  unfoldable pub dispatch : Kind → VerifiedCommand Value → M World AgentError Answer
  unfolding txt
  dispatch Kind.nftables_apply cmd = handle_nftables_apply e cmd
  dispatch Kind.nftables_restore cmd = handle_nftables_restore e cmd
  dispatch Kind.nftables_accept cmd = handle_nftables_accept e cmd
  dispatch Kind.container_list cmd = handle_container_list e cmd
  dispatch Kind.tenant_ensure cmd = handle_tenant_ensure e cmd
  dispatch Kind.container_deploy cmd = handle_container_deploy e cmd
  dispatch Kind.container_down cmd = handle_container_down e cmd
  dispatch Kind.container_start cmd = handle_container_start e cmd
  dispatch Kind.container_stop cmd = handle_container_stop e cmd
  dispatch Kind.container_remove cmd = handle_container_remove e cmd
  dispatch Kind.container_restart cmd = handle_container_restart e cmd
  dispatch Kind.container_update cmd = handle_container_update e cmd
  dispatch Kind.update_self cmd = handle_update_self e cmd
  dispatch Kind.wg_rotate_psk cmd = handle_wg_rotate_psk e cmd
  dispatch Kind.wg_management_add_peer cmd = handle_wg_management_add_peer e cmd
  dispatch Kind.wg_management_remove_peer cmd = handle_wg_management_remove_peer e cmd
  dispatch Kind.wg_management_list_peers cmd = handle_wg_management_list_peers e cmd
  dispatch Kind.wg_data_plane_setup cmd = handle_wg_data_plane_setup e cmd
  dispatch Kind.wg_data_plane_teardown cmd = handle_wg_data_plane_teardown e cmd
  dispatch Kind.dashboard_migrate cmd = handle_dashboard_migrate e cmd
  dispatch Kind.cert_update cmd = handle_cert_update e cmd
  dispatch Kind.vps_reboot cmd = handle_vps_reboot e cmd
  dispatch Kind.nginx_deploy cmd = handle_nginx_deploy e cmd
  dispatch Kind.nginx_update_config cmd = handle_nginx_update_config e cmd
  dispatch Kind.nginx_install_cert cmd = handle_nginx_install_cert e cmd
  dispatch Kind.certbot_obtain cmd = handle_certbot_obtain e cmd
  dispatch Kind.nftables_close_setup_port cmd = handle_close_setup_port e cmd
  dispatch Kind.db_rotate_password cmd = handle_db_rotate_password e cmd
  dispatch Kind.agent_heartbeat_ack cmd = do
    now ← ask instant
    modify_app (heartbeat_ack now)
    pure answer_ok
  dispatch Kind.other cmd = throw (AgentError.bad_request (txt "unknown command type"))

  unfoldable pub command_dispatch : VerifiedCommand Value → M World AgentError Answer
  unfolding kind_of command_type dispatch
  command_dispatch cmd = dispatch (kind_of (command_type cmd)) cmd

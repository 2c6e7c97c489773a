-- ===== src/Handlers/System/Lockdown.antt =====
-- Which commands can change the lockdown.
use panel_agent.Common.{◌≡◌, ◌≢◌, refl, Option, none, some, Text}
use panel_agent.Runtime.{Env, VerifiedCommand, Agent, SignedCert, AgentError}
use panel_agent.Runtime.Frame.{kept, Keeps, keeps}
use panel_agent.Cert.{read_path, or_variable, load_ca_public_key, verify_cert}
use panel_agent.Podman.Frame.{
  ensure-Keeps, deploy-Keeps, down-Keeps, start-Keeps, stop-Keeps, restart-Keeps, remove-Keeps,
  update-Keeps, list-Keeps,
}
use panel_agent.Handlers.Params.{require_str, require_valid_id}
use panel_agent.Handlers.Nftables.Lockdown.{
  nftables_apply-Keeps, nftables_restore-Keeps, nftables_accept-Keeps,
}
use panel_agent.Handlers.Containers.{
  handle_container_list, handle_tenant_ensure, handle_container_deploy, handle_container_down,
  handle_container_start, handle_container_stop, handle_container_remove, handle_container_restart,
  handle_container_update,
}
use panel_agent.Handlers.Nginx.{
  handle_nginx_deploy, handle_nginx_update_config, handle_nginx_install_cert, handle_certbot_obtain,
  handle_close_setup_port, reload_nginx, persist_config, deploy_config, write_key,
}
use panel_agent.Handlers.Wireguard.{
  handle_wg_rotate_psk, handle_wg_management_add_peer, handle_wg_management_remove_peer,
  handle_wg_management_list_peers, handle_wg_data_plane_setup, handle_wg_data_plane_teardown,
  interface_of, sync_conf, persist_psk, set_private, update_conf,
}
use panel_agent.Handlers.System.Maintenance.{
  handle_update_self, handle_dashboard_migrate, handle_cert_update, handle_db_rotate_password,
  handle_vps_reboot, update_database_url_credential,
}
use panel_agent.Handlers.System.Commands.{Kind, kind_of, command_type, dispatch, command_dispatch}

module _ (e : Env) where
  open e use {json, machine}

  require-Keeps : (v : json.Value) (k : Text) → Keeps {W = machine.World} (require_str json v k)
  unfolding require_str
  require-Keeps v k = search keeps

  require_id-Keeps :
      (v : json.Value) (k : Text) → Keeps {W = machine.World} (require_valid_id json v k)
  unfolding require_valid_id
  require_id-Keeps v k = search (keeps, require-Keeps)

  path-Keeps : (o : Option Text) → Keeps {W = machine.World} {E = AgentError} (read_path e o)
  unfolding read_path
  path-Keeps none = search keeps
  path-Keeps (some p) = search keeps

  variable-Keeps : (o : Option Text) → Keeps {W = machine.World} {E = AgentError} (or_variable e o)
  unfolding or_variable
  variable-Keeps none = search keeps
  variable-Keeps (some p) = search keeps

  load-Keeps : Keeps {W = machine.World} {E = AgentError} (load_ca_public_key e)
  unfolding load_ca_public_key
  load-Keeps = search (keeps, path-Keeps, variable-Keeps) depth 20

  cert-Keeps : (c : SignedCert) (k a : Text) → Keeps (verify_cert e c k a)
  unfolding verify_cert
  cert-Keeps c k a = search keeps depth 40

  interface-Keeps : (t : Text) → Keeps {W = machine.World} (interface_of t)
  unfolding interface_of
  interface-Keeps t = search keeps depth 40

  sync-Keeps : (t : Text) → Keeps (sync_conf e t)
  unfolding sync_conf
  sync-Keeps t = search keeps depth 40

  psk-Keeps : (t : Text) → Keeps (persist_psk e t)
  unfolding persist_psk set_private
  psk-Keeps t = search keeps depth 40

  conf-Keeps : (t : Text) (o : Option Text) → Keeps (update_conf e t o)
  unfolding update_conf
  conf-Keeps t none = search keeps
  conf-Keeps t (some c) = search keeps

  reload-Keeps : Keeps (reload_nginx e)
  unfolding reload_nginx
  reload-Keeps = search keeps depth 40

  persist-Keeps : (t : Text) → Keeps (persist_config e t)
  unfolding persist_config
  persist-Keeps t = search keeps depth 40

  config-Keeps : (o : Option Text) → Keeps (deploy_config e o)
  unfolding deploy_config
  config-Keeps none = search keeps
  config-Keeps (some c) = search (keeps, reload-Keeps, persist-Keeps) depth 20

  write_key-Keeps : (p : Text) (o : Option Text) → Keeps (write_key e p o)
  unfolding write_key
  write_key-Keeps p none = search keeps
  write_key-Keeps p (some c) = search keeps depth 20

  credential-Keeps : (u p : Text) → Keeps (update_database_url_credential e u p)
  unfolding update_database_url_credential
  credential-Keeps u p = search keeps depth 20

ruleset frames = (
  keeps, ensure-Keeps, deploy-Keeps, down-Keeps, start-Keeps, stop-Keeps, restart-Keeps,
  remove-Keeps, update-Keeps, list-Keeps, require-Keeps, require_id-Keeps, load-Keeps, cert-Keeps,
  interface-Keeps, sync-Keeps, psk-Keeps, conf-Keeps, reload-Keeps, persist-Keeps, config-Keeps,
  write_key-Keeps, credential-Keeps,
)

module _ (e : Env) where
  open e use {json, machine}

  pub dispatch-Keeps :
      (k : Kind) (cmd : VerifiedCommand json.Value)
      → k ≢ Kind.agent_heartbeat_ack
      → Keeps (dispatch e k cmd)
  unfolding dispatch handle_container_list handle_tenant_ensure handle_container_deploy
      handle_container_down handle_container_start handle_container_stop handle_container_remove
      handle_container_restart handle_container_update handle_update_self handle_wg_rotate_psk
      handle_wg_management_add_peer handle_wg_management_remove_peer handle_wg_management_list_peers
      handle_wg_data_plane_setup handle_wg_data_plane_teardown handle_dashboard_migrate
      handle_cert_update handle_vps_reboot handle_nginx_deploy handle_nginx_update_config
      handle_nginx_install_cert handle_certbot_obtain handle_close_setup_port
      handle_db_rotate_password
  dispatch-Keeps Kind.nftables_apply cmd h = nftables_apply-Keeps e cmd
  dispatch-Keeps Kind.nftables_restore cmd h = nftables_restore-Keeps e cmd
  dispatch-Keeps Kind.nftables_accept cmd h = nftables_accept-Keeps e cmd
  dispatch-Keeps Kind.container_list cmd h = search frames depth 40 fits 5000
  dispatch-Keeps Kind.tenant_ensure cmd h = search frames depth 40 fits 5000
  dispatch-Keeps Kind.container_deploy cmd h = search frames depth 40 fits 5000
  dispatch-Keeps Kind.container_down cmd h = search frames depth 40 fits 5000
  dispatch-Keeps Kind.container_start cmd h = search frames depth 40 fits 5000
  dispatch-Keeps Kind.container_stop cmd h = search frames depth 40 fits 5000
  dispatch-Keeps Kind.container_remove cmd h = search frames depth 40 fits 5000
  dispatch-Keeps Kind.container_restart cmd h = search frames depth 40 fits 5000
  dispatch-Keeps Kind.container_update cmd h = search frames depth 40 fits 5000
  dispatch-Keeps Kind.update_self cmd h = search frames depth 40 fits 5000
  dispatch-Keeps Kind.wg_rotate_psk cmd h = search frames depth 40 fits 5000
  dispatch-Keeps Kind.wg_management_add_peer cmd h = search frames depth 40 fits 5000
  dispatch-Keeps Kind.wg_management_remove_peer cmd h = search frames depth 40 fits 5000
  dispatch-Keeps Kind.wg_management_list_peers cmd h = search frames depth 40 fits 5000
  dispatch-Keeps Kind.wg_data_plane_setup cmd h = search frames depth 40 fits 5000
  dispatch-Keeps Kind.wg_data_plane_teardown cmd h = search frames depth 40 fits 5000
  dispatch-Keeps Kind.dashboard_migrate cmd h = search frames depth 40 fits 5000
  dispatch-Keeps Kind.cert_update cmd h = search frames depth 40 fits 5000
  dispatch-Keeps Kind.vps_reboot cmd h = search frames depth 40 fits 5000
  dispatch-Keeps Kind.nginx_deploy cmd h = search frames depth 40 fits 5000
  dispatch-Keeps Kind.nginx_update_config cmd h = search frames depth 40 fits 5000
  dispatch-Keeps Kind.nginx_install_cert cmd h = search frames depth 40 fits 5000
  dispatch-Keeps Kind.certbot_obtain cmd h = search frames depth 40 fits 5000
  dispatch-Keeps Kind.nftables_close_setup_port cmd h = search frames depth 40 fits 5000
  dispatch-Keeps Kind.db_rotate_password cmd h = search frames depth 40 fits 5000
  dispatch-Keeps Kind.agent_heartbeat_ack cmd h = absurd (h refl)
  dispatch-Keeps Kind.other cmd h = search keeps

  -- A command of any type but `agent.heartbeat_ack`, with any permission and arguments, leaves the
  -- lockdown flag, its reason, the time of the last heartbeat and the audit log as they were, whether
  -- it succeeds, fails or panics.
  pub command_dispatch_keeps_lockdown :
      (cmd : VerifiedCommand json.Value) (s : Agent machine.World)
      → kind_of (command_type e cmd) ≢ Kind.agent_heartbeat_ack
      → kept (command_dispatch e cmd s).1 ≡ kept s
  unfolding command_dispatch Keeps
  command_dispatch_keeps_lockdown cmd s h = dispatch-Keeps (kind_of (command_type e cmd)) cmd h s

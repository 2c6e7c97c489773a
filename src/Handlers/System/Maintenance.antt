-- ===== src/Handlers/System/Maintenance.antt =====
-- The handlers of src/handlers/system.rs: updates, migration, certificate, password, reboot.
use panel_agent.Common.{[], ◌∷◌, Text, txt}
use panel_agent.Runtime.{
  Env, Db, VerifiedCommand, FileOp, Task, AgentError, M, ◌>>=◌, ◌>>◌, pure, ask, tell, or_throw,
  modify_db, ignore, map_err, must_file, must_query, must_start, command_with, Answer, Field,
  answer_ok, answer_with,
}
use panel_agent.Auth.{get_str}
use panel_agent.Cert.{verify_cert, load_ca_public_key}
use panel_agent.Handlers.Params.{require_str, refuse_read, refuse_below_write}

abbrev pub set_role_password : Text → Db → Db
set_role_password p db = record db { role_password = p }

abbrev pub cert_path : Text
unfolding txt
cert_path = txt "/etc/lynx/cert.json"

abbrev pub credential_path : Text
unfolding txt
credential_path = txt "/etc/lynx/credentials/database-url"

module _ (e : Env) where
  open e use {json, machine, config, with_password, encode_cert}
  open json use {Value}
  open machine use {World, spawn, random_hex}

  abbrev Handler : Type 0
  Handler = VerifiedCommand Value → M World AgentError Answer

  unfoldable pub handle_update_self : Handler
  unfolding txt
  handle_update_self cmd = do
    refuse_read cmd.permission (txt "update.self requires write permission")
    version ← require_str json cmd.command (txt "version")
    download_url ← require_str json cmd.command (txt "download_url")
    sig_url ← require_str json cmd.command (txt "sig_url")
    tell (spawn (Task.perform_update version download_url sig_url))
    pure (answer_with ((txt "message", Field.text (txt "update initiated")) ∷ []))

  unfoldable pub handle_dashboard_migrate : Handler
  unfolding txt
  handle_dashboard_migrate cmd = do
    refuse_read cmd.permission (txt "dashboard.migrate requires write permission")
    target_url ← require_str json cmd.command (txt "target_url")
    sync_token ←
        or_throw config.sync_token (AgentError.bad_request (txt "no sync token configured"))
    tell (spawn (Task.confirm_migration target_url sync_token config.agent_id))
    pure (answer_with ((txt "message", Field.text (txt "migration acknowledgment sent")) ∷ []))

  unfoldable pub handle_cert_update : Handler
  unfolding txt
  handle_cert_update cmd = do
    refuse_below_write cmd.permission (txt "cert.update requires write permission")
    payload ←
        or_throw (get_str json (txt "payload") cmd.command)
          (AgentError.bad_request (txt "missing payload"))
    signature ←
        or_throw (get_str json (txt "signature") cmd.command)
          (AgentError.bad_request (txt "missing signature"))
    loaded ← load_ca_public_key e
    ca_public ← or_throw loaded AgentError.internal
    map_err (λ _. AgentError.internal)
        (verify_cert e (record { payload = payload; signature = signature }) ca_public
          config.agent_id)
    cert_json ←
        or_throw (encode_cert (record { payload = payload; signature = signature }))
          AgentError.internal
    must_file machine AgentError.internal (FileOp.create_dir_all (txt "/etc/lynx"))
    must_file machine AgentError.internal (FileOp.write cert_path cert_json)
    pure answer_ok

  unfoldable pub update_database_url_credential : Text → Text → M World AgentError (Unit {0})
  unfolding txt
  update_database_url_credential current_url new_pass = do
    new_url ← or_throw (with_password current_url new_pass) AgentError.internal
    must_file machine AgentError.internal (FileOp.create_dir_all (txt "/etc/lynx/credentials"))
    must_file machine AgentError.internal (FileOp.write credential_path new_url)
    must_file machine AgentError.internal (FileOp.set_mode credential_path 0o600)

  -- A secret that `podman` refuses, and a credential that is not written, are only logged.
  unfoldable pub handle_db_rotate_password : Handler
  unfolding update_database_url_credential txt
  handle_db_rotate_password cmd = do
    refuse_below_write cmd.permission (txt "db.rotate_password requires write permission")
    new_pass ← ask (random_hex 24)
    must_query machine AgentError.internal
    modify_db (set_role_password new_pass)
    must_start machine AgentError.internal (
        command_with (txt "podman")
          (txt "secret" ∷ txt "create" ∷ txt "--replace" ∷ txt "lynx-agent-pg-pass" ∷ txt "-" ∷ [])
          new_pass)
    ignore {D = AgentError} (update_database_url_credential config.database_url new_pass)
    pure answer_ok

  unfoldable pub handle_vps_reboot : Handler
  unfolding txt
  handle_vps_reboot cmd = do
    refuse_below_write cmd.permission (txt "vps.reboot requires write permission")
    tell (spawn Task.reboot)
    pure (answer_with ((txt "message", Field.text (txt "reboot initiated")) ∷ []))

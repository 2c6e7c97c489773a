-- ===== src/NginxWatchdog.antt =====
-- src/nginx.rs: the watchdog of the nginx container.
pub mod Growth
use panel_agent.Common.{
  ℕ, zero, suc, ◌+◌, ◌^◌, Bool, true, false, not, Option, none, some, [], ◌∷◌, ◌++◌, Text, txt,
  contains, ltb,
}
use panel_agent.Runtime.{
  Env, Proc, FileOp, NginxRow, M, ◌>>=◌, ◌>>◌, pure, ask, tell, gets_db, when, branch, ignore,
  command,
}
use panel_agent.Runtime.Web.{Web}
use panel_agent.Audit.{AuditEntry, AuditResult, append}
use panel_agent.Handlers.Nginx.{latest_config}

abbrev container_name : Text
container_name = txt "lynx-nginx"

abbrev health_url : Text
health_url = txt "http://127.0.0.1:80/_health"

abbrev pub max_redeploy_attempts : ℕ
max_redeploy_attempts = 3

abbrev succeeded : Proc → Bool
succeeded Proc.failed = false
succeeded (Proc.exited success stdout) = success

-- Whether the output, if there is any, names the container.
unfoldable pub lists : Text → Proc → Bool
unfolding contains
lists name Proc.failed = false
lists name (Proc.exited success stdout) = contains stdout name

module _ (e : Env) (web : Web e.machine.World e.json.Value) (E : Type 0) where
  open e use {machine, config}
  open machine use {World, run, file, query_fails}
  open web use {is_healthy, sleep}

  unfoldable pub is_container_running : Text → M World E Bool
  unfolding txt lists
  is_container_running name = do
    out ← ask (
        run (
          command (txt "podman") (
            txt "ps"
            ∷ txt "--filter"
            ∷ (txt "name=" ++ name)
            ∷ txt "--filter"
            ∷ txt "status=running"
            ∷ txt "--format"
            ∷ txt "{{.Names}}"
            ∷ [])))
    pure (lists name out)

  unfoldable pub container_ever_existed : Text → M World E Bool
  unfolding txt lists
  container_ever_existed name = do
    out ← ask (
        run (
          command (txt "podman") (
            txt "ps"
            ∷ txt "-a"
            ∷ txt "--filter"
            ∷ (txt "name=" ++ name)
            ∷ txt "--format"
            ∷ txt "{{.Names}}"
            ∷ [])))
    pure (lists name out)

  unfoldable pub http_health_ok : M World E Bool
  unfolding txt
  http_health_ok = ask (is_healthy health_url)

  unfoldable pub audit_nginx_event : Text → Text → M World E (Unit {0})
  audit_nginx_event event detail = ignore {D = E} (
      append e (record {
        agent_id = config.agent_id;
        organization_id = none;
        user_id = none;
        command_type = event;
        result = AuditResult.success;
        error = some detail;
      }))

  -- The attempts from this number on, as many as are left.
  unfoldable pub redeploy_from : ℕ → ℕ → M World E (Unit {0})
  unfolding txt
  redeploy_from attempt zero =
      audit_nginx_event (txt "nginx_unexpected_stop") (txt "re-deploy failed after 3 attempts")
  redeploy_from attempt (suc left) = do
    status ← ask (
        run (
          command (txt "podman") (
            txt "run"
            ∷ txt "--restart=always"
            ∷ txt "-d"
            ∷ txt "--name"
            ∷ container_name
            ∷ txt "-p"
            ∷ txt "80:80"
            ∷ txt "-p"
            ∷ txt "443:443"
            ∷ txt
                "docker.io/library/nginx@sha256:ceba1c7f1e2c42e5f43c9fa55e74ef90a1d08e7fde12f25e2a6706f4c80e0428"
            ∷ [])))
    branch (succeeded status)
        (audit_nginx_event (txt "nginx_unexpected_stop")
          (txt "re-deployed after container removal"))
        (do
          when (ltb attempt max_redeploy_attempts) (tell (sleep (2 ^ attempt)))
          redeploy_from (attempt + 1) left)

  unfoldable pub redeploy_nginx : M World E (Unit {0})
  redeploy_nginx = redeploy_from 1 max_redeploy_attempts

  -- The write of the config, the reload, and the entry.
  unfoldable pub restore_row : Option NginxRow → M World E (Unit {0})
  unfolding txt
  restore_row none = pure tt
  restore_row (some row) = do
    written ← ask (file (FileOp.write (txt "/etc/nginx/conf.d/lynx.conf") row.config_content))
    branch (not written) (pure tt) (do
      reload ← ask (
          run (
            command (txt "podman")
              (txt "exec" ∷ container_name ∷ txt "nginx" ∷ txt "-s" ∷ txt "reload" ∷ [])))
      branch (succeeded reload)
          (audit_nginx_event (txt "nginx_config_tampered") (txt "config restored from DB"))
          (pure tt))

  unfoldable pub restore_nginx_config : M World E (Unit {0})
  restore_nginx_config = do
    fails ← ask query_fails
    row ← gets_db (λ db. latest_config db.nginx_configs)
    branch fails (pure tt) (restore_row row)

  -- A round of the watchdog.
  unfoldable pub check_nginx : M World E (Unit {0})
  unfolding txt
  check_nginx = do
    container_exists ← is_container_running container_name
    branch (not container_exists)
        (do
          ever_existed ← container_ever_existed container_name
          branch ever_existed redeploy_nginx (pure tt))
        (do healthy ← http_health_ok; branch healthy (pure tt) restore_nginx_config)

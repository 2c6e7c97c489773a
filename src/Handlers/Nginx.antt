-- ===== src/Handlers/Nginx.antt =====
-- src/handlers/nginx_cmd.rs: the reverse proxy, its certificates, and the set-up port.
pub mod Domain
use panel_agent.Common.{
  ℕ, ◌≤◌, Bool, true, false, not, ◌&&◌, ◌||◌, Option, none, some, List, [], ◌∷◌, ◌++◌, Text, txt,
  text_eq, length, all, keep, ltb, leb, ◌==◌, starts_with, contains, concat, if◌then◌else◌,
}
use panel_agent.Runtime.{
  Env, Db, NginxRow, VerifiedCommand, FileOp, AgentError, M, Outcome, ok, err, ◌>>=◌, ◌>>◌, pure,
  ask, refuse_if, when, ignore, modify_db, from_outcome, must_file, must_query, must_start,
  must_run, command, Answer, Field, answer_ok, answer_with,
}
use panel_agent.Auth.{get_str}
use panel_agent.Handlers.Params.{require_str, refuse_below_write, is_alphanumeric}

abbrev nginx_container : Text
unfolding txt
nginx_container = txt "lynx-nginx"

abbrev nginx_config_path : Text
unfolding txt
nginx_config_path = txt "/etc/nginx/conf.d/lynx.conf"

abbrev webroot_path : Text
unfolding txt
webroot_path = txt "/var/lib/lynx/nginx/webroot"

-- The row of `ORDER BY updated_at DESC LIMIT 1`; among rows of one time, the newest.
abbrev later_config : NginxRow → Option NginxRow → Option NginxRow
later_config r none = some r
later_config r (some q) = if ltb r.updated_at q.updated_at then some q else some r

unfoldable pub latest_config : List NginxRow → Option NginxRow
latest_config [] = none
latest_config (r ∷ rs) = later_config r (latest_config rs)

abbrev ids_kept : Option NginxRow → NginxRow → Bool
ids_kept none row = false
ids_kept (some kept) row = text_eq row.id kept.id

-- `DELETE FROM nginx_configs WHERE id != (SELECT …)`
unfoldable pub keep_latest : List NginxRow → List NginxRow
unfolding latest_config
keep_latest rows = keep (ids_kept (latest_config rows)) rows

abbrev with_configs : (List NginxRow → List NginxRow) → Db → Db
with_configs f db = record db { nginx_configs = f db.nginx_configs }

-- `c.is_ascii_alphanumeric() || c == '-' || c == '.'`
abbrev pub is_domain_char : ℕ → Bool
is_domain_char c = is_alphanumeric c || (c == b'-' || c == b'.')

abbrev ends_with_dot : Text → Bool
ends_with_dot [] = false
ends_with_dot (c ∷ []) = c == b'.'
ends_with_dot (c ∷ d ∷ s) = ends_with_dot (d ∷ s)

abbrev starts_with_dot : Text → Bool
starts_with_dot [] = false
starts_with_dot (c ∷ s) = c == b'.'

unfoldable pub has_dotdot : Text → Bool
has_dotdot [] = false
has_dotdot (c ∷ []) = false
has_dotdot (c ∷ d ∷ s) = (c == b'.' && d == b'.') || has_dotdot (d ∷ s)

unfoldable pub has_byte : ℕ → Text → Bool
has_byte b [] = false
has_byte b (c ∷ s) = c == b || has_byte b s

unfoldable pub validate_domain_for_path : Text → Outcome AgentError (Unit {0})
unfolding has_dotdot has_byte txt
validate_domain_for_path domain =
    if length domain == 0
      || (ltb 253 (length domain)
          || (has_dotdot domain
              || (has_byte b'/' domain
                  || (has_byte 0 domain
                      || (not (all is_domain_char domain)
                          || (starts_with_dot domain || ends_with_dot domain))))))
    then err (AgentError.bad_request (txt "invalid domain for cert path"))
    else ok tt

module _ (e : Env) where
  open e use {json, machine}
  open json use {Value, get}
  open machine use {World, run, file, clock, new_uuid, query_fails}

  abbrev Handler : Type 0
  Handler = VerifiedCommand Value → M World AgentError Answer

  -- The INSERT, with `NOW()`; a fresh id has no conflict.
  unfoldable pub persist_config : Text → M World AgentError (Unit {0})
  unfolding keep_latest
  persist_config config = do
    id ← ask new_uuid
    must_query machine AgentError.internal
    now ← ask clock
    modify_db (
        with_configs (λ rows. record { id = id; config_content = config; updated_at = now } ∷ rows))
    fails ← ask query_fails
    when (not fails) (modify_db (with_configs keep_latest))

  unfoldable pub reload_nginx : M World AgentError (Unit {0})
  unfolding txt
  reload_nginx = do
    must_run machine AgentError.internal (
        command (txt "podman")
          (txt "exec" ∷ nginx_container ∷ txt "nginx" ∷ txt "-s" ∷ txt "reload" ∷ []))
    pure tt

  -- `if let Some(cfg) = …`: a failed write is only logged.
  unfoldable pub deploy_config : Option Text → M World AgentError (Unit {0})
  unfolding persist_config reload_nginx
  deploy_config none = pure tt
  deploy_config (some cfg) = do
    persist_config cfg
    ask (file (FileOp.write nginx_config_path cfg))
    reload_nginx

  unfoldable pub handle_nginx_deploy : Handler
  unfolding deploy_config txt
  handle_nginx_deploy cmd = do
    refuse_below_write cmd.permission (txt "nginx.deploy requires write permission")
    image ← require_str json cmd.command (txt "image")
    ask (run (command (txt "podman") (txt "stop" ∷ nginx_container ∷ [])))
    ask (run (command (txt "podman") (txt "rm" ∷ nginx_container ∷ [])))
    must_run machine AgentError.internal (
        command (txt "podman") (
          txt "run"
          ∷ txt "--detach"
          ∷ txt "--restart=always"
          ∷ txt "--name"
          ∷ nginx_container
          ∷ txt "--publish"
          ∷ txt "80:80"
          ∷ txt "--publish"
          ∷ txt "443:443"
          ∷ image
          ∷ []))
    deploy_config (get_str json (txt "config") cmd.command)
    pure (answer_with ((txt "container", Field.text nginx_container) ∷ []))

  unfoldable pub handle_nginx_update_config : Handler
  unfolding persist_config reload_nginx txt
  handle_nginx_update_config cmd = do
    refuse_below_write cmd.permission (txt "nginx.update_config requires write permission")
    config ← require_str json cmd.command (txt "config")
    persist_config config
    must_file machine AgentError.internal (FileOp.write nginx_config_path config)
    reload_nginx
    pure answer_ok

  unfoldable pub write_key : Text → Option Text → M World AgentError (Unit {0})
  write_key path none = pure tt
  write_key path (some key_pem) = must_file machine AgentError.internal (FileOp.write path key_pem)

  abbrev cert_dir : Text → Text
  unfolding txt
  cert_dir domain = txt "/etc/lynx/nginx/certs/" ++ domain

  unfoldable pub handle_nginx_install_cert : Handler
  unfolding write_key reload_nginx txt
  handle_nginx_install_cert cmd = do
    refuse_below_write cmd.permission (txt "nginx.install_cert requires write permission")
    domain ← require_str json cmd.command (txt "domain")
    from_outcome (validate_domain_for_path domain)
    cert_pem ← require_str json cmd.command (txt "cert_pem")
    must_file machine AgentError.internal (FileOp.create_dir_all (cert_dir domain))
    must_file machine AgentError.internal
        (FileOp.write (cert_dir domain ++ txt "/fullchain.pem") cert_pem)
    write_key (cert_dir domain ++ txt "/privkey.pem") (get_str json (txt "key_pem") cmd.command)
    ignore {D = AgentError} reload_nginx
    pure (
        answer_with (
          (txt "domain", Field.text domain)
          ∷ (txt "cert_path", Field.text (cert_dir domain ++ txt "/fullchain.pem"))
          ∷ []))

  unfoldable pub handle_certbot_obtain : Handler
  unfolding txt
  handle_certbot_obtain cmd = do
    refuse_below_write cmd.permission (txt "certbot.obtain requires write permission")
    domain ← require_str json cmd.command (txt "domain")
    email ← require_str json cmd.command (txt "email")
    must_file machine AgentError.internal (FileOp.create_dir_all webroot_path)
    must_run machine AgentError.internal (
        command (txt "certbot") (
          txt "certonly"
          ∷ txt "--webroot"
          ∷ txt "--webroot-path"
          ∷ webroot_path
          ∷ txt "--non-interactive"
          ∷ txt "--agree-tos"
          ∷ txt "--email"
          ∷ email
          ∷ txt "-d"
          ∷ domain
          ∷ []))
    pure (answer_with ((txt "domain", Field.text domain) ∷ []))

  -- That the rule could not be added is only logged.
  unfoldable pub handle_close_setup_port : Handler
  unfolding txt
  handle_close_setup_port cmd = do
    refuse_below_write cmd.permission (txt "nftables.close_setup_port requires write permission")
    must_start machine AgentError.internal (
        command (txt "nft") (
          txt "add"
          ∷ txt "rule"
          ∷ txt "inet"
          ∷ txt "lynx-agent"
          ∷ txt "lynx-base"
          ∷ txt "tcp"
          ∷ txt "dport"
          ∷ txt "19443"
          ∷ txt "drop"
          ∷ []))
    pure (answer_with ((txt "port", Field.number 19443) ∷ []))

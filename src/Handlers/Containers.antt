-- ===== src/Handlers/Containers.antt =====
-- src/handlers/containers.rs: the `container.*` and `tenant.ensure` commands.
use panel_agent.Common.{
  Bool, false, ◌&&◌, Option, none, some, List, [], ◌∷◌, Text, txt, text_eq, if◌then◌else◌,
}
use panel_agent.Runtime.{
  Env, Db, DeploymentRow, VerifiedCommand, AgentError, M, ◌>>=◌, ◌>>◌, pure, modify_db, must_query,
  Answer, Field, answer_ok, answer_with,
}
use panel_agent.Podman.{
  list_containers, ensure_tenant_user, compose_deploy, compose_down, container_start,
  container_stop, container_remove, container_restart, container_update,
}
use panel_agent.Handlers.Params.{
  require_str, require_valid_id, refuse_read, refuse_unless_destructive,
}

-- The INSERT … ON CONFLICT (tenant_id, project_id) DO UPDATE of `container.deploy`.
unfoldable pub upsert_running : Text → Text → Text → List DeploymentRow → List DeploymentRow
unfolding txt
upsert_running t p path [] =
    record { tenant_id = t; project_id = p; compose_path = path; desired = txt "running" } ∷ []
upsert_running t p path (r ∷ rs) =
    if text_eq r.tenant_id t && text_eq r.project_id p
    then record r { compose_path = path; desired = txt "running" } ∷ rs
    else r ∷ upsert_running t p path rs

-- The UPDATE of `container.down`.
unfoldable pub mark_stopped : Text → Text → List DeploymentRow → List DeploymentRow
unfolding txt
mark_stopped t p [] = []
mark_stopped t p (r ∷ rs) =
    (if text_eq r.tenant_id t && text_eq r.project_id p
      then record r { desired = txt "stopped" }
      else r)
    ∷ mark_stopped t p rs

abbrev with_deployments : (List DeploymentRow → List DeploymentRow) → Db → Db
with_deployments f db = record db { container_deployments = f db.container_deployments }

module _ (e : Env) where
  open e use {json, machine}
  open json use {Value, get, as_bool, as_u64, as_f64}
  open machine use {World}

  abbrev Handler : Type 0
  Handler = VerifiedCommand Value → M World AgentError Answer

  unfoldable pub handle_container_list : Handler
  unfolding txt
  handle_container_list cmd = do
    tenant_id ← require_valid_id json cmd.command (txt "tenant_id")
    containers ← list_containers machine json tenant_id
    pure (record { fields = (txt "containers", Field.objects containers) ∷ [] })

  unfoldable pub handle_tenant_ensure : Handler
  unfolding txt
  handle_tenant_ensure cmd = do
    refuse_read cmd.permission (txt "tenant.ensure requires write permission")
    tenant_id ← require_valid_id json cmd.command (txt "tenant_id")
    ensure_tenant_user machine tenant_id
    pure (answer_with ((txt "tenant_id", Field.text tenant_id) ∷ []))

  unfoldable pub handle_container_deploy : Handler
  unfolding txt
  handle_container_deploy cmd = do
    refuse_read cmd.permission (txt "container.deploy requires write permission")
    tenant_id ← require_valid_id json cmd.command (txt "tenant_id")
    project_id ← require_valid_id json cmd.command (txt "project_id")
    compose_yaml ← require_str json cmd.command (txt "compose_yaml")
    compose_path ← compose_deploy machine tenant_id project_id compose_yaml
    must_query machine AgentError.internal
    modify_db (with_deployments (upsert_running tenant_id project_id compose_path))
    pure answer_ok

  unfoldable pub handle_container_down : Handler
  unfolding txt
  handle_container_down cmd = do
    refuse_unless_destructive cmd.permission (txt "container.down requires destructive permission")
    tenant_id ← require_valid_id json cmd.command (txt "tenant_id")
    project_id ← require_valid_id json cmd.command (txt "project_id")
    compose_down machine tenant_id project_id
    must_query machine AgentError.internal
    modify_db (with_deployments (mark_stopped tenant_id project_id))
    pure answer_ok

  -- The common body of `start`, `stop` and `restart`, after their permission tests.
  unfoldable pub on_container : (Text → Text → M World AgentError (Unit {0})) → Handler
  unfolding txt
  on_container act cmd = do
    tenant_id ← require_valid_id json cmd.command (txt "tenant_id")
    name ← require_valid_id json cmd.command (txt "name")
    act tenant_id name
    pure answer_ok

  unfoldable pub handle_container_start : Handler
  unfolding on_container txt
  handle_container_start cmd = do
    refuse_read cmd.permission (txt "container.start requires write permission")
    on_container (container_start machine) cmd

  unfoldable pub handle_container_stop : Handler
  unfolding on_container txt
  handle_container_stop cmd = do
    refuse_read cmd.permission (txt "container.stop requires write permission")
    on_container (container_stop machine) cmd

  unfoldable pub handle_container_restart : Handler
  unfolding on_container txt
  handle_container_restart cmd = do
    refuse_read cmd.permission (txt "container.restart requires write permission")
    on_container (container_restart machine) cmd

  abbrev or_false : Option Bool → Bool
  or_false none = false
  or_false (some b) = b

  abbrev read_as {ℓ} : {A : Type ℓ} → (Value → Option A) → Option Value → Option A
  read_as f none = none
  read_as f (some v) = f v

  unfoldable pub handle_container_remove : Handler
  unfolding txt
  handle_container_remove cmd = do
    refuse_unless_destructive cmd.permission
        (txt "container.remove requires destructive permission")
    tenant_id ← require_valid_id json cmd.command (txt "tenant_id")
    name ← require_valid_id json cmd.command (txt "name")
    container_remove machine tenant_id name
        (or_false (read_as as_bool (get (txt "force") cmd.command)))
    pure answer_ok

  unfoldable pub handle_container_update : Handler
  unfolding txt
  handle_container_update cmd = do
    refuse_read cmd.permission (txt "container.update requires write permission")
    tenant_id ← require_valid_id json cmd.command (txt "tenant_id")
    name ← require_valid_id json cmd.command (txt "name")
    container_update machine tenant_id name (read_as as_f64 (get (txt "cpus") cmd.command))
        (read_as as_u64 (get (txt "memory_mb") cmd.command))
    pure answer_ok

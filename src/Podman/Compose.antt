-- ===== src/Podman/Compose.antt =====
-- Compose projects.
use panel_agent.Common.{not, [], ◌∷◌, ◌++◌, Text, txt, decimal, concat}
use panel_agent.Runtime.{
  Machine, FileOp, AgentError, M, ◌>>=◌, ◌>>◌, pure, ask, refuse_if, when, must_file, must_start,
  command,
}
use panel_agent.Podman.Users.{tenant_uid, podman_must}

unfoldable pub project_dir : Text → Text → Text
unfolding txt concat
project_dir tenant_id project_id =
    concat (txt "/var/lib/lynx/projects/" ∷ tenant_id ∷ txt "/" ∷ project_id ∷ [])

unfoldable pub compose_path_of : Text → Text → Text
unfolding project_dir txt
compose_path_of tenant_id project_id = project_dir tenant_id project_id ++ txt "/compose.yml"

module _ (m : Machine) where
  open m use {World, file}

  unfoldable pub compose_deploy : Text → Text → Text → M World AgentError Text
  unfolding compose_path_of txt concat
  compose_deploy tenant_id project_id compose_yaml = do
    must_file m AgentError.internal (FileOp.create_dir_all (project_dir tenant_id project_id))
    must_file m AgentError.internal
        (FileOp.write (compose_path_of tenant_id project_id) compose_yaml)
    uid ← tenant_uid m tenant_id
    must_start m AgentError.internal (
        command (txt "chown") (
          txt "-R"
          ∷ concat (decimal uid ∷ txt ":" ∷ decimal uid ∷ [])
          ∷ project_dir tenant_id project_id
          ∷ []))
    podman_must m tenant_id
        (txt "compose" ∷ txt "-f" ∷ compose_path_of tenant_id project_id ∷ txt "up" ∷ txt "-d" ∷ [])
    pure (compose_path_of tenant_id project_id)

  unfoldable pub compose_up_no_recreate : Text → Text → M World AgentError (Unit {0})
  unfolding txt
  compose_up_no_recreate tenant_id compose_path = do
    present ← ask (file (FileOp.exists compose_path))
    refuse_if (not present) AgentError.internal
    podman_must m tenant_id
        (txt "compose" ∷ txt "-f" ∷ compose_path ∷ txt "up" ∷ txt "-d" ∷ txt "--no-recreate" ∷ [])
    pure tt

  unfoldable pub down_existing : Text → Text → M World AgentError (Unit {0})
  unfolding txt
  down_existing tenant_id compose_path = do
    podman_must m tenant_id
        (txt "compose" ∷ txt "-f" ∷ compose_path ∷ txt "down" ∷ txt "--remove-orphans" ∷ [])
    pure tt

  unfoldable pub compose_down : Text → Text → M World AgentError (Unit {0})
  unfolding down_existing compose_path_of txt
  compose_down tenant_id project_id = do
    present ← ask (file (FileOp.exists (compose_path_of tenant_id project_id)))
    when present (down_existing tenant_id (compose_path_of tenant_id project_id))

-- ===== src/Podman/Frame.antt =====
-- Frame lemmas for the calls of podman.
use panel_agent.Common.{ℕ, Bool, Option, List, Text}
use panel_agent.Runtime.{Machine, Json}
use panel_agent.Runtime.Frame.{Keeps, keeps}
use panel_agent.Podman.Users.{
  next_subid_start, add_subid_range, tenant_uid, create_tenant_user, ensure_tenant_user,
  podman_as_tenant, podman_must,
}
use panel_agent.Podman.Compose.{compose_deploy, down_existing, compose_down}
use panel_agent.Podman.Containers.{
  container_start, container_stop, container_restart, container_remove, run_update,
  container_update, list_containers,
}

module _ (m : Machine) where
  subid-Keeps : Keeps (next_subid_start m)
  unfolding next_subid_start
  subid-Keeps = search keeps

  add-Keeps : (t : Text) → Keeps (add_subid_range m t)
  unfolding add_subid_range
  add-Keeps t = search (keeps, subid-Keeps) depth 9

  uid-Keeps : (t : Text) → Keeps (tenant_uid m t)
  unfolding tenant_uid
  uid-Keeps t = search keeps depth 9

  create-Keeps : (t : Text) → Keeps (create_tenant_user m t)
  unfolding create_tenant_user
  create-Keeps t = search (keeps, add-Keeps, uid-Keeps) depth 20

  pub ensure-Keeps : (t : Text) → Keeps (ensure_tenant_user m t)
  unfolding ensure_tenant_user
  ensure-Keeps t = search (keeps, create-Keeps) depth 20

  as_tenant-Keeps : (t : Text) (args : List Text) → Keeps (podman_as_tenant m t args)
  unfolding podman_as_tenant
  as_tenant-Keeps t args = search (keeps, uid-Keeps) depth 20

  pub must-Keeps : (t : Text) (args : List Text) → Keeps (podman_must m t args)
  unfolding podman_must
  must-Keeps t args = search (keeps, as_tenant-Keeps) depth 20

  pub deploy-Keeps : (t p y : Text) → Keeps (compose_deploy m t p y)
  unfolding compose_deploy
  deploy-Keeps t p y = search (keeps, uid-Keeps, must-Keeps) depth 20

  pub down-Keeps : (t p : Text) → Keeps (compose_down m t p)
  unfolding compose_down down_existing
  down-Keeps t p = search (keeps, must-Keeps) depth 20

  pub start-Keeps : (t n : Text) → Keeps (container_start m t n)
  unfolding container_start
  start-Keeps t n = search (keeps, must-Keeps) depth 20

  pub stop-Keeps : (t n : Text) → Keeps (container_stop m t n)
  unfolding container_stop
  stop-Keeps t n = search (keeps, must-Keeps) depth 20

  pub restart-Keeps : (t n : Text) → Keeps (container_restart m t n)
  unfolding container_restart
  restart-Keeps t n = search (keeps, must-Keeps) depth 20

  pub remove-Keeps : (t n : Text) (f : Bool) → Keeps (container_remove m t n f)
  unfolding container_remove
  remove-Keeps t n f = search (keeps, must-Keeps) depth 20

  pub update-Keeps :
      (t n : Text) (c : Option Text) (k : Option ℕ) → Keeps (container_update m t n c k)
  unfolding container_update run_update
  update-Keeps t n c k = search (keeps, must-Keeps) depth 20

  pub list-Keeps : (j : Json) (t : Text) → Keeps (list_containers m j t)
  unfolding list_containers
  list-Keeps j t = search (keeps, must-Keeps) depth 20

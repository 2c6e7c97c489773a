-- ===== src/Podman.antt =====
-- src/podman/mod.rs: the containers of a tenant. Every error is an internal one for the callers.
mod Users
mod Compose
mod Containers
pub mod Subid
pub mod Frame
unfoldable pub use Users.{
  username, home_dir, tenant_uid, podman_as_tenant, ensure_tenant_user, subid_ends,
  next_subid_start,
}
pub use Users.{subid_end}
unfoldable pub use Compose.{project_dir, compose_deploy, compose_up_no_recreate, compose_down}
unfoldable pub use Containers.{
  list_containers, ensure_org_network, container_start, container_stop, container_remove,
  container_restart, container_update,
}

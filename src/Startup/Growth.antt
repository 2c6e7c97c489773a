-- ===== src/Startup/Growth.antt =====
-- What is done at the start, and the lockdown and the audit log.
use panel_agent.Common.{◌≡◌, refl, List, [], ◌∷◌, Text}
use panel_agent.Runtime.{Env, AgentError, Outcome, ok, err, panicked, DeploymentRow}
use panel_agent.Runtime.Frame.{guard}
use panel_agent.Runtime.Growth.{Stays, stays}
use panel_agent.State.{AppState}
use panel_agent.Auth.{purge_db}
use panel_agent.Podman.{compose_up_no_recreate}
use panel_agent.Podman.Frame.{must-Keeps}
use panel_agent.Nftables.Lockdown.{apply-Keeps, current-Keeps, chains-Keeps}
use panel_agent.Startup.{
  set_checksum, after_apply, reload_nftables, recover_all, recover_containers, cleanup_nonces,
  load_bodies,
}

module _ (e : Env) where
  open e use {machine, crypto}

  guard-set_checksum :
      (r : Outcome AgentError Text) (a : AppState) → guard (set_checksum e r a) ≡ guard a
  guard-set_checksum (ok checksum) a = refl
  guard-set_checksum (err x) a = refl
  guard-set_checksum panicked a = refl

  applied-Stays : (r : Outcome AgentError Text) → Stays e.crypto (after_apply e r)
  unfolding after_apply
  applied-Stays (ok rendered) =
      search (stays, current-Keeps machine crypto, chains-Keeps machine crypto, guard-set_checksum)
        depth 20
  applied-Stays (err x) = search stays
  applied-Stays panicked = search stays

  pub reload-Stays : Stays e.crypto (reload_nftables e)
  unfolding reload_nftables load_bodies
  reload-Stays = search (stays, apply-Keeps machine crypto, applied-Stays) depth 20

  all-Stays : (rows : List DeploymentRow) → Stays e.crypto (recover_all e rows)
  unfolding recover_all compose_up_no_recreate
  all-Stays [] = search stays
  all-Stays (r ∷ rows) = search (stays, must-Keeps machine, all-Stays rows) depth 20

  pub recover-Stays : Stays e.crypto (recover_containers e)
  unfolding recover_containers
  recover-Stays = search (stays, all-Stays) depth 20

  pub cleanup-Stays : Stays e.crypto (cleanup_nonces e)
  unfolding cleanup_nonces purge_db
  cleanup-Stays = search stays depth 20

-- ===== src/Startup.antt =====
-- src/main.rs between the migrations and the server: the reload of the nftables state, the recovery
-- of the containers, and the cleanup of the nonces.
pub mod Stored
pub mod Growth
pub mod Reload
pub mod Persistence
use panel_agent.Common.{
  ℕ, ◌%◌, ◌^◌, Bool, not, ◌&&◌, ◌||◌, Option, none, some, List, [], ◌∷◌, Text, txt, text_eq, keep,
  ltb, ◌==◌, if◌then◌else◌,
}
use panel_agent.State.{AppState}
use panel_agent.Runtime.{
  Env, Db, ChainRow, DeploymentRow, AgentError, M, Outcome, ok, err, panicked, ◌>>=◌, ◌>>◌, pure,
  ask, gets_app, gets_db, modify_app, modify_db, branch, ignore, catch, when, from_outcome,
}
use panel_agent.Auth.{purge_db}
use panel_agent.Nftables.{apply, current_checksum, store_chain_checksums}
use panel_agent.Handlers.Nftables.{current_ruleset}
use panel_agent.Podman.{compose_up_no_recreate}

-- What the loop over the rows fills.
pub record StoredBodies : Type 0 where
  pub global_body : Text
  pub local_body : Text
  pub global_output_body : Text
  pub local_output_body : Text
  pub wg_port : ℕ

abbrev pub no_bodies : StoredBodies
no_bodies = record {
  global_body = [];
  local_body = [];
  global_output_body = [];
  local_output_body = [];
  wg_port = 51820;
}

-- The arm of the `match` on the chain of the row.
unfoldable pub take_body : ChainRow → StoredBodies → StoredBodies
unfolding txt text_eq
take_body r b =
    if text_eq r.chain (txt "lynx-global")
    then record b { global_body = r.body }
    else if text_eq r.chain (txt "lynx-local")
    then record b { local_body = r.body }
    else if text_eq r.chain (txt "lynx-global-output")
    then record b { global_output_body = r.body }
    else if text_eq r.chain (txt "lynx-local-output")
    then record b { local_output_body = r.body }
    else b

-- The loop; `as u16` wraps.
unfoldable pub read_rows : List ChainRow → StoredBodies → StoredBodies
unfolding take_body
read_rows [] b = b
read_rows (r ∷ rs) b = read_rows rs (record (take_body r b) { wg_port = r.wg_port % 2 ^ 16 })

-- Texts in the order of their bytes.
unfoldable pub text_lt : Text → Text → Bool
text_lt s [] = Bool.false
text_lt [] (d ∷ t) = Bool.true
text_lt (c ∷ s) (d ∷ t) = ltb c d || (c == d && text_lt s t)

unfoldable pub insert_chain : ChainRow → List ChainRow → List ChainRow
unfolding text_lt
insert_chain r [] = r ∷ []
insert_chain r (q ∷ qs) =
    let rest = insert_chain r qs in if text_lt r.chain q.chain then r ∷ q ∷ qs else q ∷ rest

-- `ORDER BY chain`
unfoldable pub sort_chains : List ChainRow → List ChainRow
unfolding insert_chain
sort_chains [] = []
sort_chains (r ∷ rs) = insert_chain r (sort_chains rs)

unfoldable pub stored_bodies : Db → StoredBodies
unfolding read_rows sort_chains
stored_bodies db = read_rows (sort_chains db.nftables_state) no_bodies

-- The five setters.
unfoldable pub load_bodies : StoredBodies → AppState → AppState
load_bodies b a = record a {
  nft_global_body = b.global_body;
  nft_local_body = b.local_body;
  nft_global_output_body = b.global_output_body;
  nft_local_output_body = b.local_output_body;
  nft_wg_port = b.wg_port;
}

module _ (e : Env) where
  open e use {json, machine, crypto, config}
  open machine use {World, query_fails, clock}

  abbrev pub set_checksum : Outcome AgentError Text → AppState → AppState
  set_checksum (ok checksum) a = record a { nft_checksum = some checksum }
  set_checksum (err x) a = a
  set_checksum panicked a = a

  -- What follows the application of the ruleset. No `catch` gives `panicked`.
  unfoldable pub after_apply : Outcome AgentError Text → M World AgentError (Unit {0})
  after_apply (ok rendered) = do
    checksum ← catch {D = AgentError} (current_checksum machine crypto)
    modify_app (set_checksum checksum)
    store_chain_checksums machine crypto
    modify_app (λ a. record a { nft_last_ruleset = some rendered })
  after_apply (err x) = pure tt
  after_apply panicked = from_outcome panicked

  abbrev apply_loaded : Db → M World AgentError (Unit {0})
  apply_loaded db = do
    modify_app (load_bodies (stored_bodies db))
    r ← gets_app (current_ruleset config)
    result ← catch {D = AgentError} (apply machine crypto r)
    after_apply result

  unfoldable pub reload_nftables : M World AgentError (Unit {0})
  reload_nftables = do
    fails ← ask query_fails
    db ← gets_db (λ db. db)
    branch fails (pure tt) (apply_loaded db)

  abbrev is_desired : DeploymentRow → Bool
  is_desired r = text_eq r.desired (txt "running")

  -- A failure is logged, and the loop goes on.
  unfoldable pub recover_all : List DeploymentRow → M World AgentError (Unit {0})
  recover_all [] = pure tt
  recover_all (r ∷ rows) = do
    ignore {D = AgentError} (compose_up_no_recreate machine r.tenant_id r.compose_path)
    recover_all rows

  unfoldable pub recover_containers : M World AgentError (Unit {0})
  unfolding txt text_eq
  recover_containers = do
    fails ← ask query_fails
    rows ← gets_db (λ db. keep is_desired db.container_deployments)
    branch fails (pure tt) (recover_all rows)

  -- One run of the `cleanup` closure.
  unfoldable pub cleanup_nonces : M World AgentError (Unit {0})
  cleanup_nonces = do
    fails ← ask query_fails
    now ← ask clock
    when (not fails) (modify_db (purge_db now))

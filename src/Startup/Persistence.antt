-- ===== src/Startup/Persistence.antt =====
-- The bodies in memory and those that a start would load.
use panel_agent.State.{AppState}
use panel_agent.Runtime.{Env, Agent, Db}
use panel_agent.Startup.{stored_bodies, reload_nftables}
use panel_agent.Startup.Reload.{HasBodies}

-- A start now would load the bodies that are in memory.
abbrev pub IsInSync : AppState → Db → Type 0
IsInSync a db = HasBodies a (stored_bodies db)

module _ (e : Env) where
  open e use {machine, crypto, config}

  -- The state of an agent that was started again on the tables of the first, after its reload.
  abbrev pub reloaded : Agent machine.World → AppState → machine.World → AppState
  reloaded s fresh w = (reload_nftables e (record { app = fresh; db = s.db; world = w })).1.app

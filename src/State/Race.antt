-- ===== src/State/Race.antt =====
-- `set_lockdown` stores the flag before it takes the mutex of the reason, so another thread's
-- `clear_lockdown_if_heartbeat` can run between its two writes.
use panel_agent.Common.{◌≡◌, refl, true, false, none, some, arith, Bool}
use panel_agent.State.{LockdownReason, AppState, set_lockdown, clear_lockdown_if_heartbeat}
use panel_agent.State.Lockdown.{IsSticky}

-- `self.lockdown.store(true, ..)`
unfoldable pub store_flag : AppState → AppState
store_flag s = record s { lockdown = true }

-- `*self.lockdown_reason.lock().unwrap() = Some(reason)`
unfoldable pub store_reason : LockdownReason → AppState → AppState
store_reason r s = record s { lockdown_reason = some r }

-- Two threads, one in `set_lockdown r` and one in `clear_lockdown_if_heartbeat`: how much of the
-- first has run, and whether the second has. The second holds the mutex from end to end.
pub data Progress : Type 0 where
  entered flagged finished : Progress

pub record Threads : Type 0 where
  pub app : AppState
  pub setter : Progress
  pub cleared : Bool

pub data Step (r : LockdownReason) (t : Threads) : Threads → Type 0 where
  flag :
      t.setter ≡ Progress.entered
      → Step r t (record t { app = store_flag t.app; setter = Progress.flagged })
  reason :
      t.setter ≡ Progress.flagged
      → Step r t (record t { app = store_reason r t.app; setter = Progress.finished })
  clear :
      t.cleared ≡ false
      → Step r t (record t { app = clear_lockdown_if_heartbeat t.app; cleared = true })

pub data Reach (r : LockdownReason) (s : Threads) : Threads → Type 0 where
  here : Reach r s s
  next : {t u : Threads} → Reach r s t → Step r t u → Reach r s u

abbrev pub start : AppState → Threads
start s = record { app = s; setter = Progress.entered; cleared = false }

pub set_lockdown-stores :
    (r : LockdownReason) (s : AppState) → store_reason r (store_flag s) ≡ set_lockdown r s
unfolding store_flag store_reason set_lockdown
set_lockdown-stores r s = refl

-- From a state with no recorded reason, for every reason the two calls can interleave so that both
-- finish with the reason recorded and the lockdown flag down.
pub lockdown_lost :
    (r : LockdownReason) (s : AppState)
    → s.lockdown_reason ≡ none
    → (t : Threads) × Reach r (start s) t
      × (t.setter ≡ Progress.finished)
      × (t.cleared ≡ true)
      × (t.app.lockdown ≡ false)
      × (t.app.lockdown_reason ≡ some r)
unfolding store_flag store_reason clear_lockdown_if_heartbeat
lockdown_lost r s h = (
  _,
  next (next (next here (flag refl)) (clear refl)) (reason refl),
  refl,
  refl,
  ground arith,
  refl,
)

-- If the setter holds the two writes together, a sticky reason survives a clear on either side.
pub set_lockdown_atomic :
    (r : LockdownReason) (s : AppState)
    → IsSticky (some r)
    → ((set_lockdown r (clear_lockdown_if_heartbeat s)).lockdown ≡ true)
      × (clear_lockdown_if_heartbeat (set_lockdown r s) ≡ set_lockdown r s)
unfolding set_lockdown clear_lockdown_if_heartbeat
set_lockdown_atomic r s h = (refl, ground arith)

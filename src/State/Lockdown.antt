-- ===== src/State/Lockdown.antt =====
-- Lockdown over time: what the watchdogs, the failures and the acknowledgements of src/state.rs
-- and src/main.rs do to it when they run one after the other.
use panel_agent.Common.{
  ℕ, ◌≡◌, refl, ◌≢◌, ◌↔◌, Bool, true, Option, none, some, List, [], ◌∷◌, arith,
}
use panel_agent.State.{
  LockdownReason, AppState, set_lockdown, heartbeat_watchdog, pg_watchdog, heartbeat_ack, initial,
}

-- Everything that writes the two lockdown fields while the process runs.
pub data LockEvent : Type 0 where
  heartbeat_tick : ℕ → LockEvent
  pg_tick : Bool → LockEvent
  removal_failed : LockEvent  -- `check_and_remove` of src/conflict.rs
  restore_failed : LockEvent  -- `check_once` of src/nftables/divergence.rs
  ack : ℕ → LockEvent

unfoldable pub lock_event : LockEvent → AppState → AppState
lock_event (LockEvent.heartbeat_tick now) s = heartbeat_watchdog now s
lock_event (LockEvent.pg_tick failed) s = pg_watchdog failed s
lock_event LockEvent.removal_failed s = set_lockdown LockdownReason.incompatible_software s
lock_event LockEvent.restore_failed s = set_lockdown LockdownReason.nftables_failure s
lock_event (LockEvent.ack now) s = heartbeat_ack now s

unfoldable pub lock_events : List LockEvent → AppState → AppState
lock_events [] s = s
lock_events (e ∷ es) s = lock_events es (lock_event e s)

-- A reason that only a restart of the service clears.
abbrev pub IsSticky : Option LockdownReason → Type 0
IsSticky none = ⊥
IsSticky (some LockdownReason.heartbeat) = ⊥
IsSticky (some _) = Unit

abbrev pub IsStuck : AppState → Type 0
IsStuck s = (s.lockdown ≡ true) × IsSticky s.lockdown_reason

-- The flag is up exactly when a reason is recorded.
abbrev pub IsConsistent : AppState → Type 0
IsConsistent s = (s.lockdown ≡ true) ↔ (s.lockdown_reason ≢ none)

pub lock_event-IsStuck : (e : LockEvent) (s : AppState) → IsStuck s → IsStuck (lock_event e s)
unfolding lock_event heartbeat_watchdog pg_watchdog set_lockdown heartbeat_ack
lock_event-IsStuck (LockEvent.heartbeat_tick now) s h = ground arith
lock_event-IsStuck (LockEvent.pg_tick failed) s h = ground arith
lock_event-IsStuck LockEvent.removal_failed s h = (refl, tt)
lock_event-IsStuck LockEvent.restore_failed s h = (refl, tt)
lock_event-IsStuck (LockEvent.ack now) s h = ground arith

pub lock_event-IsConsistent :
    (e : LockEvent) (s : AppState) → IsConsistent s → IsConsistent (lock_event e s)
unfolding lock_event heartbeat_watchdog pg_watchdog set_lockdown heartbeat_ack
lock_event-IsConsistent (LockEvent.heartbeat_tick now) s h = ground arith
lock_event-IsConsistent (LockEvent.pg_tick failed) s h = ground arith
lock_event-IsConsistent LockEvent.removal_failed s h = ground arith
lock_event-IsConsistent LockEvent.restore_failed s h = ground arith
lock_event-IsConsistent (LockEvent.ack now) s h = ground arith

-- Once the agent is locked down for a reason other than a lost heartbeat, it stays so through any
-- sequence of watchdog ticks, failures and heartbeat acknowledgements.
pub lock_events-IsStuck :
    (es : List LockEvent) (s : AppState) → IsStuck s → IsStuck (lock_events es s)
unfolding lock_events
lock_events-IsStuck [] s h = h
lock_events-IsStuck (e ∷ es) s h =
    lock_events-IsStuck es (lock_event e s) (lock_event-IsStuck e s h)

lock_events_keep :
    (es : List LockEvent) (s : AppState) → IsConsistent s → IsConsistent (lock_events es s)
unfolding lock_events
lock_events_keep [] s h = h
lock_events_keep (e ∷ es) s h = lock_events_keep es (lock_event e s) (lock_event-IsConsistent e s h)

-- From a start of the agent, after any sequence of events that run one after the other, the
-- lockdown flag is up exactly when a reason is recorded.
pub lock_events-IsConsistent :
    (now : ℕ) (es : List LockEvent) → IsConsistent (lock_events es (initial now))
unfolding initial
lock_events-IsConsistent now es = lock_events_keep es (initial now) (ground arith)

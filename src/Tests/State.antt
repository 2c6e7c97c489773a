-- ===== src/Tests/State.antt =====
-- Examples for the shared state.
use panel_agent.Common.{◌≡◌, ◌≤◌, ◌+◌, refl, true, false, some, [], ◌∷◌, arith}
use panel_agent.State.{LockdownReason, initial, set_lockdown, heartbeat_watchdog}
use panel_agent.State.Race.{Threads, Reach, start, Progress, lockdown_lost}
use panel_agent.State.Rate.{accepted, accepted_span}

lockdown_lost_example :
    (t : Threads) × Reach LockdownReason.pg_unreachable (start (initial 7)) t
    × (t.setter ≡ Progress.finished)
    × (t.cleared ≡ true)
    × (t.app.lockdown ≡ false)
    × (t.app.lockdown_reason ≡ some LockdownReason.pg_unreachable)
unfolding initial
lockdown_lost_example = lockdown_lost LockdownReason.pg_unreachable (initial 7) refl

accepted_span_example : accepted (100 ∷ 150 ∷ 120 ∷ []) (initial 7) + (initial 7).window_count ≤ 200
unfolding initial
accepted_span_example =
    accepted_span 100 (100 ∷ 150 ∷ 120 ∷ []) (initial 7) (omega arith) (omega arith, omega arith)
      ((omega arith, omega arith), ((omega arith, omega arith), ((omega arith, omega arith), tt)))

-- A heartbeat that is 301 seconds old locks the agent down, one of 300 seconds does not.
late_locks : (heartbeat_watchdog 308 (initial 7)).lockdown ≡ true
unfolding heartbeat_watchdog initial set_lockdown
late_locks = refl

in_time : (heartbeat_watchdog 307 (initial 7)).lockdown ≡ false
unfolding heartbeat_watchdog initial set_lockdown
in_time = refl

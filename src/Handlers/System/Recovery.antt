-- ===== src/Handlers/System/Recovery.antt =====
-- How `POST /heartbeat` ends a lockdown.
use panel_agent.Common.{ℕ, ◌+◌, ◌≤◌, ◌≡◌, ap, subst, sym, true, false, none, some, arith}
use panel_agent.Runtime.{Env, SignedCommand, CommandPayload, Agent, ok}
use panel_agent.State.{
  AppState, LockdownReason, heartbeat_ack, clear_lockdown_if_heartbeat, heartbeat_watchdog,
  is_locked_down,
}
use panel_agent.Auth.{verify_command, is_heartbeat_ack}
use panel_agent.Auth.Soundness.{verify_command_sound}
use panel_agent.Auth.Completeness.{IsAcceptable, acceptable-ok}
use panel_agent.Handlers.System.Execute.{heartbeat_handler, status_text}

abbrev pub recovered : ℕ → AppState → AppState
recovered now a = record a { lockdown = false; lockdown_reason = none; last_heartbeat = now }

heartbeat_ack_recovers :
    (now : ℕ) (a : AppState)
    → a.lockdown_reason ≡ some LockdownReason.heartbeat
    → heartbeat_ack now a ≡ recovered now a
unfolding heartbeat_ack clear_lockdown_if_heartbeat
heartbeat_ack_recovers now a h = ground arith

watched :
    (now then : ℕ) (a : AppState)
    → now ≤ then + 300
    → heartbeat_watchdog now (recovered then a) ≡ recovered then a
unfolding heartbeat_watchdog
watched now then a h = ground arith

module _ (e : Env) (signed : SignedCommand) (s : Agent e.machine.World) where
  open e use {json, machine, config}

  -- When the handler reads the clock for the watchdog.
  abbrev pub acknowledged_at : ℕ
  acknowledged_at = (machine.instant (verify_command e signed s).1.world).0

  verified_app :
      (p : CommandPayload json.Value)
      → IsAcceptable e signed s p
      → (verify_command e signed s).1.app ≡ s.app
  verified_app p h =
      let (_, _, _, _, _, same, _, _) =
        verify_command_sound e signed s (verify_command e signed s).1
          (ap (λ r. (r, (verify_command e signed s).1)) (acceptable-ok e signed s p h)) in
      same

  -- If the agent is locked down for a lost heartbeat, an acceptable `agent.heartbeat_ack` is answered
  -- with the status `lockdown`, ends the lockdown and changes nothing else in memory but the time of
  -- the last heartbeat, and the watchdog leaves the agent so for the next 300 seconds.
  pub heartbeat_handler_recovers :
      (p : CommandPayload json.Value)
      → IsAcceptable e signed s p
      → is_heartbeat_ack json p.command ≡ true
      → s.app.lockdown ≡ true
      → s.app.lockdown_reason ≡ some LockdownReason.heartbeat
      → ((heartbeat_handler e signed s).0
          ≡ ok (record {
            agent_id = config.agent_id;
            version = config.version;
            status = status_text e true;
          }))
        × ((heartbeat_handler e signed s).1.app ≡ recovered acknowledged_at s.app)
        × ((now : ℕ)
            → now ≤ acknowledged_at + 300
            → heartbeat_watchdog now (heartbeat_handler e signed s).1.app
              ≡ (heartbeat_handler e signed s).1.app)
  unfolding heartbeat_handler is_locked_down
  heartbeat_handler_recovers p h ack locked reason =
      let verified = acceptable-ok e signed s p h in
      let same = verified_app p h in
      let steps = heartbeat_ack_recovers acknowledged_at s.app reason in
      let app_after : (heartbeat_handler e signed s).1.app ≡ recovered acknowledged_at s.app =
        ground arith in
      (
        ground arith,
        app_after,
        λ now soon.
            subst (λ a. heartbeat_watchdog now a ≡ a) (sym app_after)
              (watched now acknowledged_at s.app soon),
      )

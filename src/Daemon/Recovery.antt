-- ===== src/Daemon/Recovery.antt =====
-- A lost heartbeat and its return, by the turns of the watchdog and of the server.
use panel_agent.Common.{
  ℕ, ◌+◌, ◌<◌, ◌≡◌, sym, ap, ◌∙◌, Bool, inl, inr, true, false, Option, none, some, Text, txt,
  text_eq, arith,
}
use panel_agent.Runtime.{Env, SignedCommand, CommandPayload, Agent, AgentError, M, ◌>>=◌, pure, err}
use panel_agent.Runtime.Laws.{Outcome-cases}
use panel_agent.State.{AppState, LockdownReason, set_lockdown, heartbeat_watchdog, is_locked_down}
use panel_agent.Auth.{is_heartbeat_ack}
use panel_agent.Auth.Completeness.{IsAcceptable}
use panel_agent.Handlers.System.{execute_command, heartbeat_handler}
use panel_agent.Handlers.System.Execution.{execute_command_gate}
use panel_agent.Handlers.System.Recovery.{recovered, acknowledged_at, heartbeat_handler_recovers}
use panel_agent.Daemon.Routes.{Request, Method, HttpReply, handle_request, route_of, serve}
use panel_agent.Daemon.Turns.{Outside, TaskTurn, heartbeat_turn, run_turn}

-- `POST /heartbeat`
abbrev pub post_heartbeat : SignedCommand → Request
post_heartbeat signed = record {
  method = Method.post;
  path = txt "/heartbeat";
  authorization = none;
  body = some signed;
  upgrades = false;
  turns = 0;
}

bind_pure_state :
    {W A B : Type 0} (m : M W AgentError A) (f : A → B) (s : Agent W)
    → ((m >>= λ a. pure (f a)) s).1 ≡ (m s).1
bind_pure_state m f s = elim (Outcome-cases (m s).0) [
  | inl (a, eq) ↦ ground arith
  | inr (inl (x, eq)) ↦ ground arith
  | inr (inr eq) ↦ ground arith
]

-- The recovery undoes the lockdown of a state that ran.
recovered_of_lock :
    (now : ℕ) (r : LockdownReason) (a : AppState)
    → a.lockdown ≡ false
    → a.lockdown_reason ≡ none
    → recovered now (set_lockdown r a) ≡ record a { last_heartbeat = now }
unfolding set_lockdown
recovered_of_lock now r a running no_reason =
    ap (λ (b : Bool). record a { lockdown = b; lockdown_reason = none; last_heartbeat = now })
      (sym running)
    ∙ ap (λ (o : Option LockdownReason). record a { lockdown_reason = o; last_heartbeat = now })
        (sym no_reason)

module _ (e : Env) (out : Outside e) where
  open e use {machine, json}
  open machine use {World, instant}

  heartbeat_request_state :
      (signed : SignedCommand) (s : Agent World)
      → run_turn e out (TaskTurn.http (post_heartbeat signed)) s ≡ (heartbeat_handler e signed s).1
  unfolding run_turn handle_request route_of serve txt text_eq
  heartbeat_request_state signed s =
      bind_pure_state (heartbeat_handler e signed) HttpReply.acknowledged s

  lost_app :
      (s : Agent World)
      → s.app.lockdown ≡ false
      → s.app.last_heartbeat + 300 < (instant s.world).0
      → (run_turn e out TaskTurn.heartbeat_tick s).app ≡ set_lockdown LockdownReason.heartbeat s.app
  unfolding run_turn heartbeat_turn heartbeat_watchdog
  lost_app s running late = ground arith

  abbrev pub lost : Agent World → Agent World
  lost s = run_turn e out TaskTurn.heartbeat_tick s

  abbrev pub back : SignedCommand → Agent World → Agent World
  back signed s = run_turn e out (TaskTurn.http (post_heartbeat signed)) (lost s)

  -- If the agent is not locked down, with no reason on record, and the last heartbeat is more than
  -- 300 seconds old, a turn of the watchdog locks it down for the lost heartbeat, and `POST /cmd` is
  -- then refused; an `agent.heartbeat_ack` that `verify_command` accepts after that, posted to
  -- `/heartbeat`, gives back the state in memory as it was, but for the time of the last heartbeat.
  pub run_turn_recovers :
      (signed : SignedCommand) (s : Agent World) (p : CommandPayload json.Value)
      → s.app.lockdown ≡ false
      → s.app.lockdown_reason ≡ none
      → s.app.last_heartbeat + 300 < (instant s.world).0
      → IsAcceptable e signed (lost s) p
      → is_heartbeat_ack json p.command ≡ true
      → ((lost s).app ≡ set_lockdown LockdownReason.heartbeat s.app)
        × ((authorization : Option Text) (command : SignedCommand)
            → execute_command e authorization command (lost s)
              ≡ (err AgentError.lockdown, (lost s)))
        × ((back signed s).app
            ≡ record s.app { last_heartbeat = acknowledged_at e signed (lost s) })
  unfolding is_locked_down set_lockdown
  run_turn_recovers signed s p running no_reason late acceptable ack =
      let locked = lost_app s running late in
      let (_, again, _) =
        heartbeat_handler_recovers e signed (lost s) p acceptable ack (ap (λ a. a.lockdown) locked)
          (ap (λ a. a.lockdown_reason) locked) in
      (
        locked,
        λ authorization command.
            (execute_command_gate e authorization command (lost s)).0 (ap (λ a. a.lockdown) locked),
        ap (λ (t : Agent World). t.app) (heartbeat_request_state signed (lost s))
            ∙ again
            ∙ ap (recovered (acknowledged_at e signed (lost s))) locked
            ∙ recovered_of_lock (acknowledged_at e signed (lost s)) LockdownReason.heartbeat s.app
                running no_reason,
      )

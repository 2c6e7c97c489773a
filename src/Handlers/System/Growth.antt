-- ===== src/Handlers/System/Growth.antt =====
-- The paths on which a command comes in, and the lockdown and the audit log.
use panel_agent.Common.{ℕ, sym, subst, Option, Text, arith}
use panel_agent.State.{AppState, check_cmd_rate, record_rate_rejection, heartbeat_ack}
use panel_agent.State.Lockdown.{LockEvent, lock_event, lock_event-IsStuck, lock_event-IsConsistent}
use panel_agent.Runtime.{
  Env, AgentError, Answer, VerifiedCommand, SignedCommand, Outcome, ok, err, panicked,
}
use panel_agent.Runtime.Growth.{Locks, Stays, stays, Keeps-Stays, lock-Stays, state_app-Stays}
use panel_agent.Auth.{VerifyError}
use panel_agent.Auth.Frame.{verify-Keeps}
use panel_agent.Audit.Calm.{append-Stays}
use panel_agent.Handlers.System.Commands.{Kind, kind_of, command_type, dispatch, command_dispatch}
use panel_agent.Handlers.System.Lockdown.{dispatch-Keeps}
use panel_agent.Handlers.System.Execute.{
  refuse_rate, refuse_unverified, record_result, on_verdict, run_verified_command, execute_command,
  heartbeat_handler,
}

Kind-Discrete : Discrete Kind
Kind-Discrete = hlevel

pub heartbeat_ack-Locks : (now : ℕ) (a : AppState) → Locks a (heartbeat_ack now a)
unfolding lock_event
heartbeat_ack-Locks now a =
    (lock_event-IsStuck (LockEvent.ack now) a, lock_event-IsConsistent (LockEvent.ack now) a)

module _ (e : Env) where
  open e use {json, machine}
  open machine use {World}

  acknowledge-Stays :
      (cmd : VerifiedCommand json.Value) → Stays e.crypto (dispatch e Kind.agent_heartbeat_ack cmd)
  unfolding dispatch
  acknowledge-Stays cmd = search (stays, lock-Stays e.crypto World AgentError, heartbeat_ack-Locks)

  pub dispatch-Stays : (cmd : VerifiedCommand json.Value) → Stays e.crypto (command_dispatch e cmd)
  unfolding command_dispatch
  dispatch-Stays cmd =
      elim (Kind-Discrete (kind_of (command_type e cmd)) Kind.agent_heartbeat_ack) [
        | yes ack ↦ subst (λ k. Stays e.crypto (dispatch e k cmd)) (sym ack) (acknowledge-Stays cmd)
        | no other ↦ Keeps-Stays e.crypto (dispatch e _ cmd) (dispatch-Keeps e _ cmd other)
      ]

  check-Locks : (now : ℕ) (a : AppState) → Locks a (check_cmd_rate now a).1
  unfolding check_cmd_rate
  check-Locks now a = (λ h. ground arith, λ h. ground arith)

  reject-Locks : (now : ℕ) (a : AppState) → Locks a (record_rate_rejection now a).1
  unfolding record_rate_rejection
  reject-Locks now a = (λ h. ground arith, λ h. ground arith)

  rate-Stays : Stays e.crypto (refuse_rate e)
  unfolding refuse_rate
  rate-Stays =
      search (stays, append-Stays e, state_app-Stays e.crypto World AgentError, reject-Locks) depth
        20

  unverified-Stays : (x : VerifyError) → Stays e.crypto (refuse_unverified e x)
  unfolding refuse_unverified
  unverified-Stays x = search (stays, append-Stays e) depth 20

  result-Stays :
      (v : VerifiedCommand json.Value) (r : Outcome AgentError Answer)
      → Stays e.crypto (record_result e v r)
  unfolding record_result
  result-Stays v (ok a) = search (stays, append-Stays e) depth 20
  result-Stays v (err x) = search (stays, append-Stays e) depth 20
  result-Stays v panicked = search stays

  verdict-Stays :
      (r : Outcome VerifyError (VerifiedCommand json.Value)) → Stays e.crypto (on_verdict e r)
  verdict-Stays (ok v) = search (stays, dispatch-Stays, result-Stays) depth 20
  verdict-Stays (err x) = unverified-Stays x
  verdict-Stays panicked = search stays

  pub run-Stays : (signed : SignedCommand) → Stays e.crypto (run_verified_command e signed)
  unfolding run_verified_command
  run-Stays signed =
      search
        (
          stays,
          verify-Keeps,
          verdict-Stays,
          rate-Stays,
          state_app-Stays e.crypto World AgentError,
          check-Locks,
        )
        depth 20

  pub execute-Stays :
      (authorization : Option Text) (signed : SignedCommand)
      → Stays e.crypto (execute_command e authorization signed)
  unfolding execute_command
  execute-Stays authorization signed = search (stays, run-Stays) depth 20

  pub heartbeat-Stays : (signed : SignedCommand) → Stays e.crypto (heartbeat_handler e signed)
  unfolding heartbeat_handler
  heartbeat-Stays signed =
      search (stays, verify-Keeps, lock-Stays e.crypto World AgentError, heartbeat_ack-Locks) depth
        20

-- ===== src/Handlers/System/Heartbeat.antt =====
-- What `POST /heartbeat` does to the lockdown.
use panel_agent.Common.{ℕ, ◌≡◌, ◌≢◌, ◌⊎◌, inl, inr, true, ap, arith, Bool-cases}
use panel_agent.Runtime.{Env, SignedCommand, VerifiedCommand, Agent, ok, panicked}
use panel_agent.Runtime.Laws.{Outcome-cases}
use panel_agent.State.{heartbeat_ack}
use panel_agent.Auth.{
  verify_command, is_heartbeat_ack, open_envelope, check_fresh, check_and_consume_nonce,
}
use panel_agent.Auth.Soundness.{verify_command_sound, verify_command-err}
use panel_agent.Handlers.System.Execute.{heartbeat_handler}

module _ (e : Env) (signed : SignedCommand) (s : Agent e.machine.World) where
  open e use {json, crypto, config, parse_payload, machine}

  opened_total :
      open_envelope crypto json parse_payload config.dashboard_verify_key config.agent_id signed
      ≢ panicked
  unfolding open_envelope
  opened_total = ground arith

  pub verify_total : (verify_command e signed s).0 ≢ panicked
  unfolding verify_command check_fresh check_and_consume_nonce
  verify_total = ground (arith, opened_total)

  -- The verified command is an acknowledgement, and the state is that of its effect at some time.
  abbrev pub IsAcknowledged : Type 0
  IsAcknowledged =
      (v : VerifiedCommand json.Value) × ((verify_command e signed s).0 ≡ ok v)
      × (is_heartbeat_ack json v.command ≡ true)
      × (t : ℕ) × ((heartbeat_handler e signed s).1.app ≡ heartbeat_ack t s.app)

  -- A request to the heartbeat endpoint leaves the state in memory as it was, the lockdown included,
  -- unless its command is verified and is an `agent.heartbeat_ack`; then the state is that of the
  -- acknowledgement.
  pub heartbeat_handler_guard : ((heartbeat_handler e signed s).1.app ≡ s.app) ⊎ IsAcknowledged
  unfolding heartbeat_handler
  heartbeat_handler_guard = elim (Outcome-cases (verify_command e signed s).0) [
    | inr (inr bad) ↦ absurd (verify_total bad)
    | inr (inl (x, eq)) ↦
        let (same, _) =
          verify_command-err e signed s (verify_command e signed s).1
            (ap (λ r. (r, (verify_command e signed s).1)) eq) in
        inl (ground arith)
    | inl (v, eq) ↦
        let (_, _, _, _, _, same, _, _) =
          verify_command_sound e signed s (verify_command e signed s).1
            (ap (λ r. (r, (verify_command e signed s).1)) eq) in
        elim (Bool-cases (is_heartbeat_ack json v.command)) [
          | inr no_ack ↦ inl (ground arith)
          | inl ack ↦
              inr
                (v, eq, ack, (machine.instant (verify_command e signed s).1.world).0, ground arith)
        ]
  ]

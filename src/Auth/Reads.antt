-- ===== src/Auth/Reads.antt =====
-- What the verification of a command does with the machine.
use panel_agent.Common.{inl, inr, Text, Bool-cases}
use panel_agent.Runtime.{Env, SignedCommand, CommandPayload}
use panel_agent.Runtime.Reads.{Peeks, peeks, Reads}
use panel_agent.Auth.{check_fresh, check_and_consume_nonce, verify_command, is_heartbeat_ack}

module _ (e : Env) where
  open e use {json, machine}

  fresh-Peeks : (p : CommandPayload json.Value) → Peeks machine (check_fresh e p)
  unfolding check_fresh Peeks
  fresh-Peeks p s = elim (Bool-cases (is_heartbeat_ack json p.command)) [
    | inl ack ↦ rw ack Reads.still
    | inr other ↦ rw other (Reads.clock Reads.still)
  ]

  nonce-Peeks : (nonce : Text) → Peeks machine (check_and_consume_nonce e nonce)
  unfolding check_and_consume_nonce
  nonce-Peeks nonce = search peeks depth 20

  pub verify-Peeks : (signed : SignedCommand) → Peeks machine (verify_command e signed)
  unfolding verify_command
  verify-Peeks signed = search (peeks, fresh-Peeks, nonce-Peeks) depth 20

-- ===== src/Auth/Frame.antt =====
-- The verification of a command and the lockdown.
use panel_agent.Common.{inl, inr, Text, Bool-cases, arith}
use panel_agent.Runtime.{Env, SignedCommand, CommandPayload}
use panel_agent.Runtime.Frame.{Keeps, keeps}
use panel_agent.Auth.{
  check_fresh, check_and_consume_nonce, verify_command, is_heartbeat_ack, purge_db, add_nonce,
}

module _ (e : Env) where
  open e use {json, machine}

  fresh-Keeps : (p : CommandPayload json.Value) → Keeps (check_fresh e p)
  unfolding check_fresh Keeps
  fresh-Keeps p s = elim (Bool-cases (is_heartbeat_ack json p.command)) [
    | inl ack ↦ ground arith
    | inr other ↦ ground arith
  ]

  nonce-Keeps : (nonce : Text) → Keeps (check_and_consume_nonce e nonce)
  unfolding check_and_consume_nonce purge_db add_nonce
  nonce-Keeps nonce = search keeps depth 20

  pub verify-Keeps : (signed : SignedCommand) → Keeps (verify_command e signed)
  unfolding verify_command
  verify-Keeps signed = search (keeps, fresh-Keeps, nonce-Keeps) depth 20

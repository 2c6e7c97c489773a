-- ===== src/Auth.antt =====
-- src/auth/mod.rs: the verification of a signed command, and the bearer token.
mod Envelope
mod Nonce
pub mod Freshness
pub mod Frame
pub mod Reads
pub mod Soundness
pub mod Completeness
pub mod Replay
unfoldable pub use Envelope.{open_envelope, is_heartbeat_ack, is_stale, skew_of, verify_message}
pub use Envelope.{VerifyError, max_timestamp_skew_secs, get_str}
unfoldable pub use Nonce.{purge, seen, purge_db, add_nonce}
pub use Nonce.{is_retained, nonce_retention_secs}
use panel_agent.Common.{ℕ, Bool, Text, text_eq, length, ◌==◌, not, if◌then◌else◌}
use panel_agent.Runtime.{
  Env, SignedCommand, CommandPayload, VerifiedCommand, M, Outcome, ◌>>=◌, ◌>>◌, pure, ask,
  refuse_if, gets_db, modify_db, must_query, Db, from_outcome,
}

module _ (e : Env) where
  open e use {crypto, json, machine, config, parse_payload}
  open json use {Value}
  open machine use {World, clock}

  -- Step 5.
  unfoldable pub check_fresh : CommandPayload Value → M World VerifyError (Unit {0})
  check_fresh payload s =
      let checked : M World VerifyError (Unit {0}) = do
        now ← ask clock
        refuse_if (is_stale (skew_of now payload.timestamp))
            (VerifyError.stale (skew_of now payload.timestamp))
      in if is_heartbeat_ack json payload.command then pure tt s else checked s

  -- Step 6. `NOW()` is read by each statement.
  unfoldable pub check_and_consume_nonce : Text → M World VerifyError (Unit {0})
  check_and_consume_nonce nonce = do
    must_query machine VerifyError.purge_failed
    purge_now ← ask clock
    modify_db (purge_db purge_now)
    must_query machine VerifyError.insert_failed
    insert_now ← ask clock
    used ← gets_db (λ db. seen nonce db.used_nonces)
    refuse_if used VerifyError.replay
    modify_db (add_nonce nonce insert_now)

  unfoldable pub verify_command : SignedCommand → M World VerifyError (VerifiedCommand Value)
  verify_command signed = do
    payload ←
        from_outcome (
          open_envelope crypto json parse_payload config.dashboard_verify_key config.agent_id
            signed)
    check_fresh payload
    check_and_consume_nonce payload.nonce
    pure (record {
      user_id = payload.user_id;
      organization_id = payload.organization_id;
      permission = payload.permission;
      command = payload.command;
    })

-- Without the length test `ct_eq` would do the same; the source makes it first.
unfoldable pub verify_bearer : Text → Text → Bool
verify_bearer provided expected =
    if not (length provided == length expected) then Bool.false else text_eq provided expected

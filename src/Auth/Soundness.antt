-- ===== src/Auth/Soundness.antt =====
-- What an accepted command has passed.
use panel_agent.Common.{
  ℕ, ◌≡◌, ◌⊎◌, inl, inr, true, false, some, Text, length, arith, Option-cases, text_eq_iff,
}
use panel_agent.Runtime.{
  Env, SignedCommand, CommandPayload, VerifiedCommand, Outcome, ok, err, Agent,
}
use panel_agent.Runtime.Laws.{Outcome-cases}
use panel_agent.Auth.{
  VerifyError, open_envelope, is_heartbeat_ack, is_stale, skew_of, seen, purge, purge_db, add_nonce,
  check_fresh, check_and_consume_nonce, verify_command,
}

-- What the first four steps of `verify_command` establish of a payload.
pub record IsAuthentic (e : Env) (signed : SignedCommand) (p : CommandPayload e.json.Value)
    : Type 0 where
  pub bytes : Text
  pub signature : Text
  pub decoded : e.crypto.decode_base64url signed.payload ≡ some bytes
  pub decoded_signature : e.crypto.decode_base64url signed.signature ≡ some signature
  pub usable_key : e.crypto.key_is_valid e.config.dashboard_verify_key ≡ true
  pub length_64 : length signature ≡ 64
  pub verified : e.crypto.verify e.config.dashboard_verify_key bytes signature ≡ true
  pub parsed : e.parse_payload bytes ≡ some p
  pub addressed : p.agent_id ≡ e.config.agent_id

module _ (e : Env) where
  open e use {crypto, json, machine, config, parse_payload}

  pub open_envelope-ok :
      (signed : SignedCommand) (p : CommandPayload json.Value)
      → open_envelope crypto json parse_payload config.dashboard_verify_key config.agent_id signed
        ≡ ok p
      → IsAuthentic e signed p
  unfolding open_envelope
  open_envelope-ok signed p h = elim (Option-cases (crypto.decode_base64url signed.payload)) [
    | inl bad ↦ absurd (ground arith)
    | inr (bytes, d) ↦ elim (Option-cases (crypto.decode_base64url signed.signature)) [
      | inl bad ↦ absurd (ground arith)
      | inr (sig, d') ↦ record {
        bytes = bytes;
        signature = sig;
        decoded = d;
        decoded_signature = d';
        usable_key = ground arith;
        length_64 = ground arith;
        verified = ground arith;
        parsed = ground arith;
        addressed = ground (arith, text_eq_iff p.agent_id config.agent_id);
      }
    ]
  ]

  -- The world after the first query, and the two readings of the clock, of the nonce step.
  abbrev pub purge_time : Agent machine.World → ℕ
  purge_time s = (machine.clock (machine.query_fails s.world).1).0

  abbrev pub insert_time : Agent machine.World → ℕ
  insert_time s =
      (machine.clock (machine.query_fails (machine.clock (machine.query_fails s.world).1).1).1).0

  pub consume-ok :
      (nonce : Text) (s : Agent machine.World)
      → (check_and_consume_nonce e nonce s).0 ≡ ok tt
      → (seen nonce (purge (purge_time s) s.db.used_nonces) ≡ false)
        × ((check_and_consume_nonce e nonce s).1.db
            ≡ add_nonce nonce (insert_time s) (purge_db (purge_time s) s.db))
        × ((check_and_consume_nonce e nonce s).1.app ≡ s.app)
  unfolding check_and_consume_nonce purge_db
  consume-ok nonce s h = (ground arith, ground arith, ground arith)

  consume-err :
      (nonce : Text) (s : Agent machine.World) {x : VerifyError}
      → (check_and_consume_nonce e nonce s).0 ≡ err x
      → ((check_and_consume_nonce e nonce s).1.app ≡ s.app)
        × (((check_and_consume_nonce e nonce s).1.db ≡ s.db)
            ⊎ ((check_and_consume_nonce e nonce s).1.db ≡ purge_db (purge_time s) s.db))
  unfolding check_and_consume_nonce
  consume-err nonce s h = ground arith

  fresh_keeps :
      (p : CommandPayload json.Value) (s : Agent machine.World)
      → ((check_fresh e p s).1.db ≡ s.db) × ((check_fresh e p s).1.app ≡ s.app)
  unfolding check_fresh
  fresh_keeps p s = ground arith

  pub fresh-ok :
      (p : CommandPayload json.Value) (s : Agent machine.World)
      → (check_fresh e p s).0 ≡ ok tt
      → (is_heartbeat_ack json p.command ≡ true)
        ⊎ (is_stale (skew_of (machine.clock s.world).0 p.timestamp) ≡ false)
  unfolding check_fresh
  fresh-ok p s h = ground arith

  module _ (signed : SignedCommand) (s s' : Agent machine.World) where
    -- `v` comes of an authentic payload that is fresh, unless it is a heartbeat acknowledgement,
    -- and whose nonce no row of the purged table had; the tables change by the purge and the nonce.
    abbrev pub IsAccepted : VerifiedCommand json.Value → Type 0
    IsAccepted v =
        (p : CommandPayload json.Value) × IsAuthentic e signed p
        × ((is_heartbeat_ack json p.command ≡ true)
            ⊎ (is_stale (skew_of (machine.clock s.world).0 p.timestamp) ≡ false))
        × (seen p.nonce (purge (purge_time (check_fresh e p s).1) s.db.used_nonces) ≡ false)
        × (s'.db
            ≡ add_nonce p.nonce (insert_time (check_fresh e p s).1)
                (purge_db (purge_time (check_fresh e p s).1) s.db))
        × (s'.app ≡ s.app)
        × (v.command ≡ p.command)
        × (v.permission ≡ p.permission)

    -- An accepted command is authentic, is fresh unless it is a heartbeat acknowledgement, and had
    -- a nonce that no row of the purged table held; the one change of the tables is that the nonces
    -- that are older than five minutes, by the clock as the DELETE reads it, are gone, and this one
    -- is there, with the clock as the INSERT reads it.
    pub verify_command_sound :
        {v : VerifiedCommand json.Value} → verify_command e signed s ≡ (ok v, s') → IsAccepted v
    unfolding verify_command
    verify_command_sound {v} h = elim (Outcome-cases opened) [
      | inl (p, eq) ↦
          let s1 = (check_fresh e p s).1 in
          let fresh = fresh-ok p s (ground arith) in
          let (db_kept, app_kept) = fresh_keeps p s in
          let (unseen, stored, app_same) = consume-ok p.nonce s1 (ground arith) in
          (
            p,
            open_envelope-ok signed p eq,
            fresh,
            ground arith,
            ground arith,
            ground arith,
            ground arith,
            ground arith,
          )
      | inr bad ↦ absurd (ground arith)
    ]
      where
        opened : Outcome VerifyError (CommandPayload json.Value)
        opened =
            open_envelope crypto json parse_payload config.dashboard_verify_key config.agent_id
              signed

    -- The tables are as they were, or purged at the time that the DELETE reads.
    abbrev pub IsPurged : Type 0
    IsPurged =
        (s'.db ≡ s.db)
        ⊎ ((p : CommandPayload json.Value) × IsAuthentic e signed p
            × (s'.db ≡ purge_db (purge_time (check_fresh e p s).1) s.db))

    -- A refused command leaves the state as it was, but for the nonces that are
    -- older than five minutes by the clock as the DELETE reads it, if the payload is authentic.
    pub verify_command-err :
        {x : VerifyError} → verify_command e signed s ≡ (err x, s') → (s'.app ≡ s.app) × IsPurged
    unfolding verify_command
    verify_command-err {x} h = elim (Outcome-cases opened) [
      | inl (p, eq) ↦
          let s1 = (check_fresh e p s).1 in
          let (db_kept, app_kept) = fresh_keeps p s in
          elim (Outcome-cases (check_fresh e p s).0) [
            | inl (_, fresh) ↦
                let (app_same, db_same) = consume-err p.nonce s1 {x = x} (ground arith) in
                (
                  ground arith,
                  elim db_same [
                    | inl same ↦ inl (ground arith)
                    | inr purged ↦ inr (p, open_envelope-ok signed p eq, ground arith)
                  ],
                )
            | inr stale ↦ (ground arith, inl (ground arith))
          ]
      | inr bad ↦ (ground arith, inl (ground arith))
    ]
      where
        opened : Outcome VerifyError (CommandPayload json.Value)
        opened =
            open_envelope crypto json parse_payload config.dashboard_verify_key config.agent_id
              signed

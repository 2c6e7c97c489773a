-- ===== src/Auth/Completeness.antt =====
-- Which commands `verify_command` accepts.
use panel_agent.Common.{
  ◌≡◌, sym, ap, ◌∙◌, ◌↔◌, ◌⊎◌, inl, inr, true, false, Text, arith, text_eq_iff,
}
use panel_agent.Runtime.{Env, SignedCommand, CommandPayload, VerifiedCommand, ok, Agent}
use panel_agent.Runtime.Laws.{Outcome-cases}
use panel_agent.Auth.{
  open_envelope, is_heartbeat_ack, is_stale, skew_of, seen, purge, check_fresh,
  check_and_consume_nonce, verify_command, purge_db,
}
use panel_agent.Auth.Soundness.{IsAuthentic, open_envelope-ok, fresh-ok, purge_time}

module _ (e : Env) where
  open e use {crypto, json, machine, config, parse_payload}
  open machine use {World, clock, query_fails}

  abbrev pub verified_of : CommandPayload json.Value → VerifiedCommand json.Value
  verified_of p = record {
    user_id = p.user_id;
    organization_id = p.organization_id;
    permission = p.permission;
    command = p.command;
  }

  abbrev pub IsTimely : CommandPayload json.Value → Agent World → Type 0
  IsTimely p s =
      (is_heartbeat_ack json p.command ≡ true)
      ⊎ (is_stale (skew_of (clock s.world).0 p.timestamp) ≡ false)

  -- Both statements of the nonce step run, and the table, purged, has no row of the nonce.
  abbrev pub IsUnused : Text → Agent World → Type 0
  IsUnused nonce s =
      ((query_fails s.world).0 ≡ false)
      × ((query_fails (clock (query_fails s.world).1).1).0 ≡ false)
      × (seen nonce (purge (purge_time e s) s.db.used_nonces) ≡ false)

  authentic-ok :
      (signed : SignedCommand) (p : CommandPayload json.Value)
      → IsAuthentic e signed p
      → open_envelope crypto json parse_payload config.dashboard_verify_key config.agent_id signed
        ≡ ok p
  unfolding open_envelope
  authentic-ok signed p a =
      let d = a.decoded in
      let d' = a.decoded_signature in
      let k = a.usable_key in
      let l = a.length_64 in
      let v = a.verified in
      let j = a.parsed in
      let o = a.addressed in ground (arith, text_eq_iff p.agent_id config.agent_id)

  timely-ok :
      (p : CommandPayload json.Value) (s : Agent World)
      → IsTimely p s
      → (check_fresh e p s).0 ≡ ok tt
  unfolding check_fresh
  timely-ok p s h = ground arith

  unused-ok :
      (nonce : Text) (s : Agent World)
      → IsUnused nonce s
      → (check_and_consume_nonce e nonce s).0 ≡ ok tt
  unfolding check_and_consume_nonce purge_db
  unused-ok nonce s h = ground arith

  ok-IsUnused :
      (nonce : Text) (s : Agent World)
      → (check_and_consume_nonce e nonce s).0 ≡ ok tt
      → IsUnused nonce s
  unfolding check_and_consume_nonce purge_db
  ok-IsUnused nonce s h = (ground arith, ground arith, ground arith)

  module _ (signed : SignedCommand) (s : Agent World) where
    -- What `verify_command` asks of the payload.
    abbrev pub IsAcceptable : CommandPayload json.Value → Type 0
    IsAcceptable p = IsAuthentic e signed p × IsTimely p s × IsUnused p.nonce (check_fresh e p s).1

    ok-IsAcceptable :
        (v : VerifiedCommand json.Value)
        → (verify_command e signed s).0 ≡ ok v
        → (p : CommandPayload json.Value) × (IsAcceptable p × (v ≡ verified_of p))
    unfolding verify_command
    ok-IsAcceptable v h =
        elim (Outcome-cases (
          open_envelope crypto json parse_payload config.dashboard_verify_key config.agent_id
            signed)) [
              | inl (p, eq) ↦ (
                p,
                (
                  (
                    open_envelope-ok e signed p eq,
                    fresh-ok e p s (ground arith),
                    ok-IsUnused p.nonce (check_fresh e p s).1 (ground arith),
                  ),
                  ground arith,
                ),
              )
              | inr bad ↦ absurd (ground arith)
            ]

    pub acceptable-ok :
        (p : CommandPayload json.Value)
        → IsAcceptable p
        → (verify_command e signed s).0 ≡ ok (verified_of p)
    unfolding verify_command
    acceptable-ok p (a, t, u) =
        let opened = authentic-ok signed p a in
        let fresh = timely-ok p s t in
        let consumed = unused-ok p.nonce (check_fresh e p s).1 u in ground arith

    -- `verify_command` accepts exactly the commands that carry, under the configured key, a valid
    -- signature of 64 bytes over a payload for this agent that is a heartbeat acknowledgement or
    -- within the time window, and whose nonce step can run its statements and finds no row of the
    -- nonce in the purged table; what it returns is of that payload.
    pub verify_command_iff :
        (v : VerifiedCommand json.Value)
        → ((verify_command e signed s).0 ≡ ok v)
          ↔ ((p : CommandPayload json.Value) × (IsAcceptable p × (v ≡ verified_of p)))
    verify_command_iff v =
        (ok-IsAcceptable v, λ (p, (h, same)). acceptable-ok p h ∙ ap ok (sym same))

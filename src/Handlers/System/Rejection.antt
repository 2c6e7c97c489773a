-- ===== src/Handlers/System/Rejection.antt =====
-- What a run of a refused command leaves.
use panel_agent.Audit.Reads.{append-Peeks}
use panel_agent.Auth.Reads.{verify-Peeks}
use panel_agent.Runtime.Reads.{Reads, Reads-trans, Peeks}
use panel_agent.Common.{◌≡◌, refl, ap, ◌∙◌, ◌⊎◌, inl, inr, true, false, none, some, txt, arith}
use panel_agent.Runtime.{Env, SignedCommand, throw, AgentError, Agent, AuditRow, Db, err}
use panel_agent.Auth.{VerifyError, verify_command, verify_message}
use panel_agent.Auth.Soundness.{verify_command-err, IsPurged}
use panel_agent.Audit.{append, push_row, AuditResult, AuditEntry, as_str}
use panel_agent.Audit.Chain.{append_total, append_app, append-ok, append-err}
use panel_agent.Runtime.Laws.{ignore_bind, Outcome-cases}
use panel_agent.Audit.Limits.{append_rate_limit}
use panel_agent.Handlers.System.Execute.{
  run_verified_command, refuse_rate, refuse_unverified, unknown_entry,
}
use panel_agent.Handlers.System.Execution.{
  rate_allows, after_rate, after_verify, run_allowed, run_refused,
}
use panel_agent.State.{record_rate_rejection}

module _ (e : Env) where
  open e use {json, machine}

  -- The state that the rate limiter's refusal is recorded in.
  abbrev counted : Agent machine.World → Agent machine.World
  counted s =
      let (now, w) = machine.clock s.world in
      record s { app = (record_rate_rejection now s.app).1; world = w }

  rate_steps :
      (s : Agent machine.World)
      → refuse_rate e s ≡ (
        err (AgentError.bad_request (txt "rate limit exceeded")),
        (append e (unknown_entry e AuditResult.rejected_rate_limit none) (counted s)).1,
      )
  unfolding refuse_rate
  rate_steps s =
      ignore_bind (throw (AgentError.bad_request (txt "rate limit exceeded"))) (counted s)
        (append e (unknown_entry e AuditResult.rejected_rate_limit none))
        (append_total e _ (counted s))

  -- A command over the rate is answered with `BadRequest` and the tables are as they were: no
  -- command is verified, no nonce is used, and the log has no row of the rejection.
  pub run_verified_command_over_rate :
      (signed : SignedCommand) (s : Agent machine.World)
      → rate_allows e s ≡ false
      → ((run_verified_command e signed s).0
          ≡ err (AgentError.bad_request (txt "rate limit exceeded")))
        × ((run_verified_command e signed s).1.db ≡ s.db)
  unfolding unknown_entry
  run_verified_command_over_rate signed s h =
      rw (run_refused e signed s h, rate_steps (after_rate e s))
        (refl, (append_rate_limit e _ (counted (after_rate e s)) refl).1)

  verdict_steps :
      (x : VerifyError) (s : Agent machine.World)
      → refuse_unverified e x s ≡ (
        err AgentError.unauthorized,
        (append e (unknown_entry e AuditResult.rejected (some (verify_message x))) s).1,
      )
  unfolding refuse_unverified
  verdict_steps x s =
      ignore_bind (throw AgentError.unauthorized) s
        (append e (unknown_entry e AuditResult.rejected (some (verify_message x))))
        (append_total e _ s)

  -- What `append` of a rejection may have added.
  abbrev pub IsLogged : VerifyError → Db → Db → Type 0
  IsLogged x before after =
      (after ≡ before)
      ⊎ ((row : AuditRow) × (after ≡ push_row row before)
          × (row.result ≡ txt "rejected")
          × (row.error ≡ some (verify_message x))
          × (row.user_id ≡ none))

  append-IsLogged :
      (x : VerifyError) (s : Agent machine.World)
      → IsLogged x s.db
          (append e (unknown_entry e AuditResult.rejected (some (verify_message x))) s).1.db
  unfolding unknown_entry as_str
  append-IsLogged x s = elim (Outcome-cases (append e entry s).0) [
    | inl (_, done) ↦
        let (row, added, _, user, _, _, result, error, _) = append-ok e entry s (ground arith) in
        inr (row, added, result, error, user)
    | inr failed ↦ inl (append-err e entry s (ground arith))
  ]
    where
      entry : AuditEntry
      entry = unknown_entry e AuditResult.rejected (some (verify_message x))

  read_only :
      (signed : SignedCommand) (s : Agent machine.World) (x : VerifyError)
      → Reads machine s.world
          (append e
            (unknown_entry e AuditResult.rejected (some (verify_message x)))
            (after_verify e signed s)).1.world
  unfolding Peeks
  read_only signed s x =
      let entry = unknown_entry e AuditResult.rejected (some (verify_message x)) in
      let verified = (after_verify e signed s).world in
      Reads-trans machine s.world verified (append e entry (after_verify e signed s)).1.world
        (Reads-trans machine s.world (after_rate e s).world verified (Reads.clock Reads.still)
          (verify-Peeks e signed (after_rate e s)))
        (append-Peeks e entry (after_verify e signed s))

  -- An answer `Unauthorized`, and no more than the purge and the entry in the tables.
  abbrev pub IsRejected : SignedCommand → Agent machine.World → VerifyError → Type 0
  IsRejected signed s x =
      ((run_verified_command e signed s).0 ≡ err AgentError.unauthorized)
      × ((run_verified_command e signed s).1.app ≡ (after_rate e s).app)
      × IsPurged e signed (after_rate e s) (after_verify e signed s)
      × IsLogged x (after_verify e signed s).db (run_verified_command e signed s).1.db
      × Reads machine s.world (run_verified_command e signed s).1.world

  -- A command within the rate that is not verified is answered with `Unauthorized`. The state in
  -- memory changes by the rate count only; the tables by the nonces that are older than five minutes
  -- by the clock as the DELETE reads it, which are purged if the payload is authentic, and by at most
  -- one row, of the result `rejected`, with the message of the error and no user; and the machine is
  -- only asked for the time, for an id and by queries: no process, file, task or request.
  pub run_verified_command-err :
      (signed : SignedCommand) (s : Agent machine.World) {x : VerifyError}
      → rate_allows e s ≡ true
      → (verify_command e signed (after_rate e s)).0 ≡ err x
      → IsRejected signed s x
  run_verified_command-err signed s {x} allowed bad =
      let (same, kept) =
        verify_command-err e signed (after_rate e s) (after_verify e signed s)
          (ap (λ r. (r, after_verify e signed s)) bad) in
      rw (run_allowed e signed s allowed, bad, verdict_steps x (after_verify e signed s))
        (
          refl,
          append_app e _ (after_verify e signed s) ∙ same,
          kept,
          append-IsLogged x (after_verify e signed s),
          read_only signed s x,
        )

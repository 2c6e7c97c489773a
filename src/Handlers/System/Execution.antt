-- ===== src/Handlers/System/Execution.antt =====
-- What a run of a command establishes.
use panel_agent.Common.{
  ◌≡◌, refl, sym, ap, ◌∙◌, inl, inr, Bool, true, false, Option, some, Text, txt, arith, Bool-cases,
}
use panel_agent.Runtime.{
  Env, SignedCommand, VerifiedCommand, AgentError, Agent, Db, branch, AuditRow, Outcome, ok, err,
  panicked, Answer, perm_lt,
}
use panel_agent.Runtime.Laws.{catch_bind}
use panel_agent.State.{check_cmd_rate, is_locked_down}
use panel_agent.Auth.{VerifyError, verify_command, verify_bearer}
use panel_agent.Audit.{append, push_row, recompute, as_str}
use panel_agent.Audit.Chain.{append-ok}
use panel_agent.Handlers.System.Commands.{kind_of, command_type, command_dispatch}
use panel_agent.Handlers.System.Permissions.{requires, is_forbidden, command_dispatch_gate}
use panel_agent.Handlers.System.Execute.{
  run_verified_command, execute_command, execute_verified, executed_entry, record_result,
  verify_and_execute, refuse_rate, audit_result_of, token_of, on_verdict, refuse_unverified,
}

module _ (e : Env) where
  open e use {crypto, json, machine, config}

  -- While the agent is locked down, `POST /cmd` answers `Lockdown` whatever the token and the
  -- command; out of lockdown a wrong bearer token is answered with `Unauthorized`. Both leave the
  -- state, the tables and the machine as they were: no command is verified and no nonce used.
  pub execute_command_gate :
      (authorization : Option Text) (signed : SignedCommand) (s : Agent machine.World)
      → (is_locked_down s.app ≡ true
          → execute_command e authorization signed s ≡ (err AgentError.lockdown, s))
        × (is_locked_down s.app ≡ false
            → verify_bearer (token_of e authorization) config.internal_token ≡ false
            → execute_command e authorization signed s ≡ (err AgentError.unauthorized, s))
  unfolding execute_command
  execute_command_gate authorization signed s = ground arith

  -- The state after the rate limiter has let a command through.
  abbrev pub after_rate : Agent machine.World → Agent machine.World
  after_rate s =
      let (now, w) = machine.clock s.world in
      record s { app = (check_cmd_rate now s.app).1; world = w }

  abbrev pub rate_allows : Agent machine.World → Bool
  rate_allows s = (check_cmd_rate (machine.clock s.world).0 s.app).0

  pub run_allowed :
      (signed : SignedCommand) (s : Agent machine.World)
      → rate_allows s ≡ true
      → run_verified_command e signed s
        ≡ on_verdict e
            (verify_command e signed (after_rate s)).0
            (verify_command e signed (after_rate s)).1
  unfolding run_verified_command
  run_allowed signed s h =
      ap (λ allowed. branch allowed (verify_and_execute e signed) (refuse_rate e) (after_rate s)) h
      ∙ catch_bind (on_verdict e) (after_rate s) (verify_command e signed) (λ _. refl)

  pub run_refused :
      (signed : SignedCommand) (s : Agent machine.World)
      → rate_allows s ≡ false
      → run_verified_command e signed s ≡ refuse_rate e (after_rate s)
  unfolding run_verified_command
  run_refused signed s h =
      ap (λ allowed. branch allowed (verify_and_execute e signed) (refuse_rate e) (after_rate s)) h

  execute_steps :
      (v : VerifiedCommand json.Value) (s : Agent machine.World)
      → execute_verified e v s
        ≡ record_result e v (command_dispatch e v s).0 (command_dispatch e v s).1
  unfolding record_result
  execute_steps v s = catch_bind (record_result e v) s (command_dispatch e v) (λ _. refl)

  -- What a success of `record_result` says of the log.
  abbrev pub IsAudited : VerifiedCommand json.Value → Db → Db → Type 0
  IsAudited v before after =
      (row : AuditRow) × (after ≡ push_row row before)
      × (row.user_id ≡ some v.user_id)
      × (row.organization_id ≡ v.organization_id)
      × (row.command_type ≡ command_type e v)
      × (row.result ≡ txt "success")
      × (recompute crypto row ≡ row.entry_hash)

  record_success :
      (v : VerifiedCommand json.Value) (r : Outcome AgentError Answer) (s s' : Agent machine.World)
      {a : Answer}
      → record_result e v r s ≡ (ok a, s')
      → (r ≡ ok a) × IsAudited v s.db s'.db
  unfolding record_result executed_entry as_str audit_result_of
  record_success v (ok b) s s' h =
      let (row, added, _, user, org, kind, result, _, hash) =
        append-ok e (executed_entry e v (ok b)) s (ground arith) in
      (ground arith, (row, ground arith, user, org, kind, result, hash))
  record_success v (err x) s s' h = absurd (ground arith)
  record_success v panicked s s' h = absurd (ground arith)

  permitted :
      (v : VerifiedCommand json.Value) (s : Agent machine.World) {a : Answer}
      → (command_dispatch e v s).0 ≡ ok a
      → perm_lt v.permission (requires (kind_of (command_type e v))) ≡ false
  unfolding is_forbidden
  permitted v s {a} h =
      elim (Bool-cases (perm_lt v.permission (requires (kind_of (command_type e v))))) [
        | inl low ↦ absurd (ground (arith, command_dispatch_gate e v s low))
        | inr high ↦ high
      ]

  -- The state after the verification, and after the dispatch.
  abbrev pub after_verify : SignedCommand → Agent machine.World → Agent machine.World
  after_verify signed s = (verify_command e signed (after_rate s)).1

  verdict_success :
      (signed : SignedCommand) (r : Outcome VerifyError (VerifiedCommand json.Value))
      (s s' : Agent machine.World) {a : Answer}
      → on_verdict e r s ≡ (ok a, s')
      → (v : VerifiedCommand json.Value) × (r ≡ ok v) × (execute_verified e v s ≡ (ok a, s'))
  unfolding refuse_unverified append
  verdict_success signed (ok v) s s' h = (v, refl, h)
  verdict_success signed (err x) s s' h = absurd (ground arith)
  verdict_success signed panicked s s' h = absurd (ground arith)

  run_refused-err : (s s' : Agent machine.World) {a : Answer} → refuse_rate e s ≡ (ok a, s') → ⊥
  unfolding refuse_rate append
  run_refused-err s s' h = ground arith

  abbrev pub IsExecuted :
      SignedCommand → Agent machine.World → Agent machine.World → Answer → Type 0
  IsExecuted signed s s' a =
      (rate_allows s ≡ true)
      × (v : VerifiedCommand json.Value) × ((verify_command e signed (after_rate s)).0 ≡ ok v)
      × (perm_lt v.permission (requires (kind_of (command_type e v))) ≡ false)
      × ((command_dispatch e v (after_verify signed s)).0 ≡ ok a)
      × IsAudited v (command_dispatch e v (after_verify signed s)).1.db s'.db

  -- A command that succeeds was let through by the rate limiter and verified as `v`, has the
  -- permission that its type requires, and succeeded in its handler; and the log has exactly one
  -- more row than the handler left, with the user, the organization and the type of `v`, the result
  -- `success` and a hash that checks.
  pub run_verified_command-ok :
      (signed : SignedCommand) (s s' : Agent machine.World) {a : Answer}
      → run_verified_command e signed s ≡ (ok a, s')
      → IsExecuted signed s s' a
  run_verified_command-ok signed s s' {a} h = elim (Bool-cases (rate_allows s)) [
    | inl allowed ↦
        let (v, verified, ran) =
          verdict_success signed _ (after_verify signed s) s'
            (sym (run_allowed signed s allowed) ∙ h) in
        let (done, audited) =
          record_success v _ (command_dispatch e v (after_verify signed s)).1 s'
            (sym (execute_steps v (after_verify signed s)) ∙ ran) in
        (allowed, v, verified, permitted v (after_verify signed s) done, done, audited)
    | inr over ↦ absurd (run_refused-err (after_rate s) s' (sym (run_refused signed s over) ∙ h))
  ]

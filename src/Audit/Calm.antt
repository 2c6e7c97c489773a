-- ===== src/Audit/Calm.antt =====
-- What `append` may do to the state.
use panel_agent.Common.{ap, refl, sym, subst, inl, inr, [], ◌∷◌}
use panel_agent.Runtime.{Env, Db, Agent}
use panel_agent.Runtime.Ends.{Runs, Extends}
use panel_agent.Runtime.Growth.{Locks, Stays}
use panel_agent.Audit.{AuditEntry, make_row, recompute, append}
use panel_agent.Audit.Chain.{append_changes, append_total, append_app, tied}

module _ (e : Env) where
  append-Extends :
      (entry : AuditEntry) (s : Agent e.machine.World) → Extends s.db (append e entry s).1.db
  append-Extends entry s = elim (append_changes e entry s) [
    | inl (same, _) ↦ ([], ap (λ (db : Db). db.audit_log) same)
    | inr (p, _, added) ↦ (_ ∷ [], ap (λ (db : Db). db.audit_log) added)
  ]

  pub append-Runs : (entry : AuditEntry) → Runs (append e entry)
  unfolding Runs
  append-Runs entry s = (append_total e entry s, (append_app e entry s, append-Extends entry s))

  pub append-Stays : (entry : AuditEntry) → Stays e.crypto (append e entry)
  unfolding Stays make_row recompute
  append-Stays entry s = elim (append_changes e entry s) [
    | inl (same, _) ↦ (locks, ([], (ap (λ (db : Db). db.audit_log) same, tt)))
    | inr (p, linked, added) ↦ (
      locks,
      (_ ∷ [], (ap (λ (db : Db). db.audit_log) added, (refl, (tied e entry s, linked), tt))),
    )
  ]
    where
      locks : Locks s.app (append e entry s).1.app
      locks = subst (Locks s.app) (sym (append_app e entry s)) (λ h. h, λ h. h)

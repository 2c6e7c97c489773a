-- ===== src/Audit/Tamper.antt =====
-- Which changes of the stored log `append` notices.
use panel_agent.Common.{◌≡◌, ◌≢◌, false, some, arith, text_eq_iff}
use panel_agent.Runtime.{Env, Agent, AuditRow, latest, err}
use panel_agent.Audit.{AuditEntry, AuditError, recompute, chain_head, append}
use panel_agent.Audit.Chain.{tied}

module _ (e : Env) (entry : AuditEntry) (s : Agent e.machine.World) where
  open e use {crypto, machine}

  -- If the latest row's stored hash is not that of its fields and the fetch succeeds, `append`
  -- reports the violation and changes no table.
  pub append_tampered :
      (row : AuditRow)
      → latest (tied e entry s) s.db.audit_log ≡ some row
      → recompute crypto row ≢ row.entry_hash
      → (machine.query_fails (machine.new_uuid s.world).1).0 ≡ false
      → ((append e entry s).0 ≡ err AuditError.integrity_violation)
        × ((append e entry s).1.db ≡ s.db)
  unfolding append chain_head
  append_tampered row newest bad fetched =
      ground (arith, text_eq_iff (recompute crypto row) row.entry_hash)

-- ===== src/Tests/Audit.antt =====
-- Examples for the audit log.
use panel_agent.Common.{◌≡◌, refl, none, [], ◌∷◌, txt, text_eq, arith, true}
use panel_agent.Runtime.{Env, Agent, AuditRow, PermissionLevel, latest, result_check}
use panel_agent.Audit.{
  AuditEntry, AuditResult, as_str, hash_input, chain_head, recompute, make_row, push_row, has_id,
}
use panel_agent.Audit.Chain.{IsChain}
use panel_agent.Audit.Race.{Job, Writer, Writers, Reach, start, append_forks}
use panel_agent.Tests.Fixture.{env_of, agent_at, obj, toy_crypto, empty_db, Scene}

abbrev an_env : Env
an_env = env_of (obj []) PermissionLevel.read 1000

abbrev entry_of : AuditResult → AuditEntry
entry_of result = record {
  agent_id = b'a' ∷ [];
  organization_id = none;
  user_id = none;
  command_type = b'c' ∷ [];
  result = result;
  error = none;
}

abbrev first_row : AuditRow
first_row = make_row toy_crypto (b'h' ∷ []) (entry_of AuditResult.success) (txt "genesis") 900

abbrev with_row : AuditRow → Agent Scene
with_row row = record (agent_at 1000) { db = push_row row empty_db }

abbrev job : Job
job = record { id = b'j' ∷ []; entry = entry_of AuditResult.success }

abbrev other_job : Job
other_job = record job { id = b'k' ∷ [] }

append_forks_example :
    (t : Writers) × Reach toy_crypto job other_job (start (with_row first_row).db) t
    × (t.first ≡ Writer.finished)
    × (t.second ≡ Writer.finished)
    × (t.db.audit_log
        ≡ make_row toy_crypto other_job.id other_job.entry first_row.entry_hash 1001
          ∷ make_row toy_crypto job.id job.entry first_row.entry_hash 1000
          ∷ first_row
          ∷ [])
    × (¬ IsChain toy_crypto t.db.audit_log)
unfolding make_row chain_head recompute latest hash_input as_str txt text_eq has_id result_check
append_forks_example =
    append_forks toy_crypto job other_job (with_row first_row).db first_row.entry_hash (λ _ _. true)
      1000 1001 refl (refl, refl) (refl, refl) refl (λ h. absurd (ground arith))

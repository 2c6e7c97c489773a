-- ===== src/Audit/Reads.antt =====
-- What `append` does with the machine.
use panel_agent.Runtime.{Env}
use panel_agent.Runtime.Reads.{Peeks, peeks}
use panel_agent.Audit.{AuditEntry, append}

pub append-Peeks : (e : Env) (entry : AuditEntry) → Peeks e.machine (append e entry)
unfolding append
append-Peeks e entry = search peeks depth 20

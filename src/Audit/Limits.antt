-- ===== src/Audit/Limits.antt =====
-- Limits of the log: a result that the table refuses, and entries that hash alike.
use panel_agent.Common.{◌≡◌, refl, ◌≢◌, Option, some, false, ◌++◌, Text, txt, arith}
use panel_agent.Runtime.{Crypto, Env, Agent, result_check, ok}
use panel_agent.Audit.{AuditEntry, AuditResult, as_str, compute_entry_hash, hash_input, append}

unlisted : (r : AuditResult) → r ≡ AuditResult.rejected_rate_limit → result_check (as_str r) ≡ false
unfolding as_str result_check
unlisted r e = rw e

-- An entry for a command refused by the rate limit is never stored: the `CHECK` of migrations/
-- does not list its result.
pub append_rate_limit :
    (e : Env) (entry : AuditEntry) (s : Agent e.machine.World)
    → entry.result ≡ AuditResult.rejected_rate_limit
    → ((append e entry s).0 ≢ ok tt) × ((append e entry s).1.db ≡ s.db)
unfolding append
append_rate_limit e entry s limited = ground (arith, unlisted entry.result limited)

-- An entry with result "rejected" and an error that begins with "_rate_limit" has the hash of the
-- entry with result "rejected_rate_limit" and the rest of that error, all else being equal: the
-- fields are hashed without separators.
pub compute_entry_hash_ambiguous :
    (c : Crypto) (prev_hash id agent_id : Text) (org user : Option Text) (command_type error : Text)
    → compute_entry_hash c prev_hash id agent_id org user command_type
        (as_str AuditResult.rejected)
        (some (txt "_rate_limit" ++ error))
      ≡ compute_entry_hash c prev_hash id agent_id org user command_type
          (as_str AuditResult.rejected_rate_limit)
          (some error)
unfolding compute_entry_hash hash_input as_str txt
compute_entry_hash_ambiguous c prev_hash id agent_id org user command_type error = refl

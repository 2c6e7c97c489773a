-- ===== src/Sync/Growth.antt =====
-- The synchronisation, and the lockdown and the audit log.
use panel_agent.Common.{ℕ, List, Option, none, some, Text}
use panel_agent.Runtime.{Env, AuditRow, Reply}
use panel_agent.Runtime.Growth.{Stays, stays}
use panel_agent.Sync.{on_reply, send_entries, sync_batch}

module _ (e : Env) (encode_rows : List AuditRow → Text) where
  reply-Stays : (last_at : ℕ) (resp : Reply) → Stays e.crypto (on_reply e encode_rows last_at resp)
  unfolding on_reply
  reply-Stays last_at resp = search stays depth 20

  entries-Stays :
      (url token : Text) (entries : List AuditRow) (o : Option AuditRow)
      → Stays e.crypto (send_entries e encode_rows url token entries o)
  unfolding send_entries
  entries-Stays url token entries none = search stays
  entries-Stays url token entries (some last) = search (stays, reply-Stays) depth 20

  pub batch-Stays : (url token : Text) → Stays e.crypto (sync_batch e encode_rows url token)
  unfolding sync_batch
  batch-Stays url token = search (stays, entries-Stays) depth 20

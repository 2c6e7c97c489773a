-- ===== src/Sync.antt =====
-- src/sync/mod.rs: the transfer of the audit log to the dashboard. The rows of a batch are encoded
-- by serde_json and an id is printed by the uuid crate, which are parameters.
pub mod Growth
pub mod Order
pub mod Batch
pub mod Delivery
use panel_agent.Common.{
  ℕ, zero, suc, Bool, not, ◌&&◌, Option, none, some, List, [], ◌∷◌, Text, txt, ltb, leb, ◌==◌,
  length, take, keep, last?, trim_end, concat, if◌then◌else◌,
}
use panel_agent.Runtime.{
  Env, Config, AuditRow, Db, Reply, M, ◌>>=◌, ◌>>◌, pure, throw, ask, gets_db, modify_db,
  must_query, or_throw, panic_unless, ignore, branch,
}
use panel_agent.Handlers.Wireguard.{slice_panics}

pub data SyncError : Type 0 where
  database request : SyncError
  refused : ℕ → SyncError

abbrev pub batch_size : ℕ
batch_size = 100

-- After the rows that are not later.
unfoldable pub insert_row : AuditRow → List AuditRow → List AuditRow
insert_row r [] = r ∷ []
insert_row r (q ∷ qs) =
    let rest = insert_row r qs in if ltb r.created_at q.created_at then r ∷ q ∷ qs else q ∷ rest

-- `ORDER BY created_at ASC`; of rows with the same time, which the query leaves open, the older
-- comes first.
unfoldable pub sort_rows : List AuditRow → List AuditRow
unfolding insert_row
sort_rows [] = []
sort_rows (r ∷ rs) = insert_row r (sort_rows rs)

abbrev pub is_after : ℕ → AuditRow → Bool
is_after cursor r = ltb cursor r.created_at

-- The rows that the query would give without its limit.
unfoldable pub pending : Db → List AuditRow
unfolding sort_rows
pending db = sort_rows (keep (is_after db.last_synced_at) db.audit_log)

abbrev pub move_cursor : ℕ → Db → Db
move_cursor t db = record db { last_synced_at = t }

unfoldable pub is_success : ℕ → Bool
is_success status = leb 200 status && leb status 299

abbrev shown_length : Text → ℕ
shown_length body = if ltb (length body) 200 then length body else 200

unfoldable pub sync_url : Text → Text → Text
unfolding trim_end concat txt
sync_url dashboard_url agent_id =
    concat (trim_end b'/' dashboard_url ∷ txt "/agents/" ∷ agent_id ∷ txt "/audit-sync" ∷ [])

module _ (e : Env) (encode_rows : List AuditRow → Text) where
  open e use {machine, config}
  open machine use {World, post}

  -- The answer of the dashboard to a batch whose last row is of this time. The slice of the body
  -- for the log, which is read if the level is on, or for the error, panics inside a character.
  unfoldable pub on_reply : ℕ → Reply → M World SyncError (Unit {0})
  unfolding slice_panics is_success
  on_reply last_at resp =
      branch (resp.status == 422)
        (do
          panic_unless (not (machine.logs_warn && slice_panics (shown_length resp.body) resp.body))
          must_query machine SyncError.database
          modify_db (move_cursor 0))
        (branch (not (is_success resp.status))
          (do
            panic_unless (not (slice_panics (shown_length resp.body) resp.body))
            throw (SyncError.refused resp.status))
          (do must_query machine SyncError.database; modify_db (move_cursor last_at)))

  -- `last` is `entries.last()`, which there is unless the batch is empty.
  unfoldable pub send_entries :
      Text → Text → List AuditRow → Option AuditRow → M World SyncError (Unit {0})
  unfolding on_reply
  send_entries url token entries none = pure tt
  send_entries url token entries (some last) = do
    reply ← ask (post (record { url = url; token = token; body = encode_rows entries }))
    resp ← or_throw reply SyncError.request
    on_reply last.created_at resp

  unfoldable pub sync_batch : Text → Text → M World SyncError (Unit {0})
  unfolding send_entries pending
  sync_batch url token = do
    must_query machine SyncError.database
    must_query machine SyncError.database
    entries ← gets_db (λ db. take batch_size (pending db))
    send_entries url token entries (last? entries)

  -- So many turns of the loop. An error is logged, and the loop goes on.
  unfoldable pub sync_rounds : ℕ → Text → Text → M World SyncError (Unit {0})
  unfolding sync_batch
  sync_rounds zero url token = pure tt
  sync_rounds (suc n) url token = do
    ignore {D = SyncError} (sync_batch url token)
    sync_rounds n url token

  -- The task, up to this turn of its loop.
  unfoldable pub run_sync_task : (Text → Text) → ℕ → M World SyncError (Unit {0})
  unfolding sync_rounds sync_url
  run_sync_task format_uuid n = elim config.dashboard_url [
    | none ↦ pure tt
    | some dashboard_url ↦ elim config.sync_token [
      | none ↦ pure tt
      | some token ↦ sync_rounds n (sync_url dashboard_url (format_uuid config.agent_id)) token
    ]
  ]

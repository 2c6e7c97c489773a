-- ===== src/Sync/Batch.antt =====
-- One batch: what it leaves to be sent.
use panel_agent.Common.{
  ℕ, zero, suc, ◌∷◌, ◌-◌, ◌≤◌, ◌≡◌, subst, refl, ap, sym, ◌∙◌, inl, inr, true, false, Option, none,
  some, List, [], Text, length, take, drop, keep, last?, arith, Option-cases,
}
use panel_agent.Runtime.{Env, Machine, AuditRow, Db, Reply, Post, Agent, Outcome, ok}
use panel_agent.Sync.{
  SyncError, batch_size, pending, move_cursor, is_after, is_success, sync_batch, send_entries,
  on_reply, sort_rows,
}
use panel_agent.Sync.Order.{
  keep-sort_rows, keep-keep, sort_rows-SortedFrom, last?-take-le, keep-drop, length-keep-drop,
  StrictFrom, keep-drop-StrictFrom, SortedFrom,
}

abbrev pub batch : Db → List AuditRow
batch db = take batch_size (pending db)

-- Moving the cursor to the last row of the batch.
pending-move_cursor :
    (db : Db) {x : AuditRow}
    → last? (batch db) ≡ some x
    → pending (move_cursor x.created_at db)
      ≡ keep (is_after x.created_at) (drop batch_size (pending db))
unfolding pending
pending-move_cursor db {x} h =
    let sorted : SortedFrom db.last_synced_at (pending db) =
      sort_rows-SortedFrom db.last_synced_at db.audit_log in
    let forward : db.last_synced_at ≤ x.created_at =
      last?-take-le batch_size db.last_synced_at (pending db) sorted h in
    ap sort_rows (sym (keep-keep db.last_synced_at x.created_at db.audit_log forward))
    ∙ sym (keep-sort_rows x.created_at (keep (is_after db.last_synced_at) db.audit_log))
    ∙ keep-drop batch_size db.last_synced_at (pending db) sorted h

-- Every query succeeds, and every request is answered with a success.
pub record Accepting (m : Machine) : Type 0 where
  pub answers : (w : m.World) → (m.query_fails w).0 ≡ false
  pub accepts :
      (p : Post) (w : m.World)
      → (r : Reply) × (((m.post p w).0 ≡ some r) × (is_success r.status ≡ true))

-- What a batch that the dashboard accepted leaves to be sent.
abbrev pub IsDelivered : Db → Db → Type 0
IsDelivered before after =
    (after.audit_log ≡ before.audit_log)
    × (length (pending after) ≤ length (pending before) - batch_size)
    × (StrictFrom before.last_synced_at (pending before)
        → pending after ≡ drop batch_size (pending before))

moved-IsDelivered :
    (db : Db) {x : AuditRow}
    → last? (batch db) ≡ some x
    → IsDelivered db (move_cursor x.created_at db)
moved-IsDelivered db {x} h = (
  refl,
  rw (pending-move_cursor db h) (length-keep-drop batch_size x.created_at (pending db)),
  λ s.
      pending-move_cursor db h ∙ keep-drop-StrictFrom batch_size db.last_synced_at (pending db) s h,
)

some_last : (k : ℕ) (r : AuditRow) (rows : List AuditRow) → last? (r ∷ take k rows) ≡ none → ⊥
some_last zero r rows h = ground arith
some_last (suc k) r [] h = ground arith
some_last (suc k) r (q ∷ qs) h = some_last k q qs h

pub empty_batch : (rows : List AuditRow) → last? (take batch_size rows) ≡ none → rows ≡ []
empty_batch [] h = refl
empty_batch (r ∷ rows) h = absurd (some_last 99 r rows h)

nothing-IsDelivered : (db : Db) → pending db ≡ [] → IsDelivered db db
nothing-IsDelivered db h = (refl, rw h (omega arith), λ s. rw h refl)

module _ (e : Env) (encode_rows : List AuditRow → Text) where
  open e use {machine}

  on_reply_success :
      (t : ℕ) (r : Reply) (s : Agent machine.World)
      → (machine.query_fails s.world).0 ≡ false
      → is_success r.status ≡ true
      → ((on_reply e encode_rows t r s).0 ≡ ok tt)
        × ((on_reply e encode_rows t r s).1.db ≡ move_cursor t s.db)
  unfolding on_reply is_success
  on_reply_success t r s h k = ground arith

  abbrev pub asked : Agent machine.World → Agent machine.World
  asked s = record s { world = (machine.query_fails s.world).1 }

  pub sync_batch_sends :
      ((w : machine.World) → (machine.query_fails w).0 ≡ false)
      → (url token : Text) (s : Agent machine.World)
      → sync_batch e encode_rows url token s
        ≡ send_entries e encode_rows url token (batch s.db) (last? (batch s.db)) (asked (asked s))
  unfolding sync_batch
  sync_batch_sends h url token s = ground (arith, h s.world, h (asked s).world)

  abbrev pub post_of : Text → Text → Db → Post
  post_of url token db = record { url = url; token = token; body = encode_rows (batch db) }

  pub send_entries_last :
      (url token : Text) (x : AuditRow) (s : Agent machine.World) {r : Reply}
      → (machine.post (post_of url token s.db) s.world).0 ≡ some r
      → send_entries e encode_rows url token (batch s.db) (some x) s
        ≡ on_reply e encode_rows x.created_at r
            (record s { world = (machine.post (post_of url token s.db) s.world).1 })
  unfolding send_entries
  send_entries_last url token x s h = ground arith

  -- The batch was accepted, and the run delivered it.
  abbrev pub IsAccepted : Db → Outcome SyncError (Unit {0}) × Agent machine.World → Type 0
  IsAccepted before p = (p.0 ≡ ok tt) × IsDelivered before p.1.db

  abbrev sends :
      Text
      → Text
      → Agent machine.World
      → Option AuditRow
      → Outcome SyncError (Unit {0}) × Agent machine.World
  sends url token s last = send_entries e encode_rows url token (batch s.db) last (asked (asked s))

  sends_nothing :
      (url token : Text) (s : Agent machine.World)
      → last? (batch s.db) ≡ none
      → IsAccepted s.db (sends url token s none)
  unfolding send_entries
  sends_nothing url token s h = (refl, nothing-IsDelivered s.db (empty_batch (pending s.db) h))

  sends-batch :
      Accepting machine
      → (url token : Text) (x : AuditRow) (s : Agent machine.World) → last? (batch s.db) ≡ some x
      → IsAccepted s.db (sends url token s (some x))
  sends-batch a url token x s h =
      let (r, (got, good)) = a.accepts (post_of url token s.db) (asked (asked s)).world in
      let s' : Agent machine.World = record (asked (asked s)) {
        world = (machine.post (post_of url token s.db) (asked (asked s)).world).1;
      } in
      let (done, moved) = on_reply_success x.created_at r s' (a.answers s'.world) good in
      subst (IsAccepted s.db) (sym (send_entries_last url token x (asked (asked s)) got))
        (done, subst (IsDelivered s.db) (sym moved) (moved-IsDelivered s.db h))

  -- If the database answers and the dashboard accepts, a batch succeeds: the log is as it was, the
  -- rows still to be sent are at least a hundred fewer or none, and if no two of the rows to be sent
  -- have the same time, they are exactly those after the first hundred.
  pub sync_batch-IsAccepted :
      Accepting machine
      → (url token : Text) (s : Agent machine.World)
      → IsAccepted s.db (sync_batch e encode_rows url token s)
  sync_batch-IsAccepted a url token s =
      let steps = sync_batch_sends a.answers url token s in
      elim (Option-cases (last? (batch s.db))) [
        | inl no_last ↦
            subst (IsAccepted s.db) (sym (steps ∙ ap (sends url token s) no_last))
              (sends_nothing url token s no_last)
        | inr (x, found) ↦
            subst (IsAccepted s.db) (sym (steps ∙ ap (sends url token s) found))
              (sends-batch a url token x s found)
      ]

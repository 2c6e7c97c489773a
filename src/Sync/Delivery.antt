-- ===== src/Sync/Delivery.antt =====
-- Repeated batches.
use panel_agent.Common.{
  ℕ, zero, suc, ◌*◌, ◌≤◌, ◌≡◌, subst, refl, sym, ap, ◌∙◌, inl, inr, none, some, List, [], ◌∷◌, Text,
  length, take, drop, last?, arith, Option-cases, true, false, Option,
}
use panel_agent.Runtime.{Env, AuditRow, Reply, Agent, Outcome, ok}
use panel_agent.Sync.{
  SyncError, batch_size, pending, move_cursor, is_success, sync_batch, sync_rounds, send_entries,
  on_reply,
}
use panel_agent.Sync.Order.{StrictFrom, drop-StrictFrom, length-drop}
use panel_agent.Sync.Batch.{
  Accepting, batch, asked, post_of, sync_batch_sends, send_entries_last, empty_batch,
  sync_batch-IsAccepted,
}

-- The rows after so many batches.
unfoldable pub left : ℕ → List AuditRow → List AuditRow
left zero rows = rows
left (suc n) rows = left n (drop batch_size rows)

left_none : (n : ℕ) (rows : List AuditRow) → length rows ≤ batch_size * n → left n rows ≡ []
unfolding left
left_none zero [] h = refl
left_none zero (r ∷ rows) h = absurd (omega arith)
left_none (suc n) rows h =
    left_none n (drop batch_size rows) (omega (arith, length-drop batch_size rows))

module _ (e : Env) (encode_rows : List AuditRow → Text) (url token : Text) where
  open e use {machine}
  open machine use {World, query_fails, post}

  abbrev queried : World → World
  queried w = (query_fails w).1

  -- The world after a batch of these rows: two queries, and, if there are rows, a request with the
  -- first hundred and the query that moves the cursor.
  unfoldable pub batch_world : List AuditRow → World → World
  batch_world [] w = queried (queried w)
  batch_world (r ∷ rows) w =
      queried
        (post (record { url = url; token = token; body = encode_rows (take batch_size (r ∷ rows)) })
          (queried (queried w))).1

  -- The world after so many batches, each of the rows that the one before left.
  unfoldable pub deliveries : ℕ → List AuditRow → World → World
  deliveries zero rows w = w
  deliveries (suc n) rows w = deliveries n (drop batch_size rows) (batch_world rows w)

  accepted :
      (t : ℕ) (r : Reply) (s : Agent World)
      → (query_fails s.world).0 ≡ false
      → is_success r.status ≡ true
      → on_reply e encode_rows t r s
        ≡ (ok tt, record s { db = move_cursor t s.db; world = queried s.world })
  unfolding on_reply is_success
  accepted t r s h k = ground arith

  batch_world-some :
      (rows : List AuditRow) (w : World) {x : AuditRow}
      → last? (take batch_size rows) ≡ some x
      → batch_world rows w
        ≡ queried
            (post
              (record { url = url; token = token; body = encode_rows (take batch_size rows) })
              (queried (queried w))).1
  unfolding batch_world
  batch_world-some [] w h = absurd (ground arith)
  batch_world-some (r ∷ rows) w h = refl

  -- What a batch that is accepted does, besides the move of the cursor over the rows sent.
  abbrev IsStep : Agent World → Outcome SyncError (Unit {0}) × Agent World → Type 0
  IsStep s p =
      (p.0 ≡ ok tt)
      × (p.1.app ≡ s.app)
      × (p.1.world ≡ batch_world (pending s.db) s.world)
      × (StrictFrom s.db.last_synced_at (pending s.db)
          → StrictFrom p.1.db.last_synced_at (drop batch_size (pending s.db)))

  abbrev moved : AuditRow → Agent World → Agent World
  moved x s = record s {
    db = move_cursor x.created_at s.db;
    world = queried (post (post_of e encode_rows url token s.db) (queried (queried s.world))).1;
  }

  sends-IsStep :
      Accepting machine
      → (s : Agent World) (x : AuditRow) → last? (batch s.db) ≡ some x
      → IsStep s (
          send_entries e encode_rows url token
            (batch s.db)
            (some x)
            (asked e encode_rows (asked e encode_rows s)))
  sends-IsStep a s x h =
      let (r, (got, good)) =
        a.accepts (post_of e encode_rows url token s.db) (queried (queried s.world)) in
      let t : Agent World = record s {
        world = (post (post_of e encode_rows url token s.db) (queried (queried s.world))).1;
      } in
      let steps =
        send_entries_last e encode_rows url token x (asked e encode_rows (asked e encode_rows s))
          got
        ∙ accepted x.created_at r t (a.answers t.world) good in
      subst (IsStep s) (sym steps) (
        refl,
        refl,
        sym (batch_world-some (pending s.db) s.world h),
        λ strict. drop-StrictFrom batch_size s.db.last_synced_at (pending s.db) strict h,
      )

  sends_nothing :
      (s : Agent World)
      → last? (batch s.db) ≡ none
      → IsStep s (
          send_entries e encode_rows url token
            (batch s.db)
            none
            (asked e encode_rows (asked e encode_rows s)))
  unfolding send_entries batch_world
  sends_nothing s h =
      let nothing = empty_batch (pending s.db) h in rw nothing (refl, refl, refl, λ _. tt)

  sync_batch-IsStep :
      Accepting machine → (s : Agent World) → IsStep s (sync_batch e encode_rows url token s)
  sync_batch-IsStep a s =
      let steps = sync_batch_sends e encode_rows a.answers url token s in
      let sends = λ (last : Option AuditRow).
        send_entries e encode_rows url token (batch s.db) last
          (asked e encode_rows (asked e encode_rows s)) in
      elim (Option-cases (last? (batch s.db))) [
        | inl no_last ↦ subst (IsStep s) (sym (steps ∙ ap sends no_last)) (sends_nothing s no_last)
        | inr (x, found) ↦
            subst (IsStep s) (sym (steps ∙ ap sends found)) (sends-IsStep a s x found)
      ]

  round_steps :
      (n : ℕ) (s : Agent World)
      → (sync_batch e encode_rows url token s).0 ≡ ok tt
      → sync_rounds e encode_rows (suc n) url token s
        ≡ sync_rounds e encode_rows n url token (sync_batch e encode_rows url token s).1
  unfolding sync_rounds
  round_steps n s h = ground arith

  -- The rounds ended without a panic, the machine is as after those batches, the log and the state in
  -- memory are as they were, and the rows that the batches left are still to be sent.
  abbrev pub IsDeliveredIn : ℕ → Agent World → Outcome SyncError (Unit {0}) × Agent World → Type 0
  IsDeliveredIn n s p =
      (p.0 ≡ ok tt)
      × (p.1.world ≡ deliveries n (pending s.db) s.world)
      × (p.1.app ≡ s.app)
      × (p.1.db.audit_log ≡ s.db.audit_log)
      × (pending p.1.db ≡ left n (pending s.db))

  rounds_deliver :
      Accepting machine
      → (n : ℕ) (s : Agent World) → StrictFrom s.db.last_synced_at (pending s.db)
      → IsDeliveredIn n s (sync_rounds e encode_rows n url token s)
  unfolding sync_rounds deliveries left
  rounds_deliver a zero s h = (refl, refl, refl, refl, refl)
  rounds_deliver a (suc n) s h =
      let t = (sync_batch e encode_rows url token s).1 in
      let (done, app, world, strict) = sync_batch-IsStep a s in
      let (_, (same, _, rest)) = sync_batch-IsAccepted e encode_rows a url token s in
      let next = rest h in
      let (ended, worlds, apps, logs, lefts) =
        rounds_deliver a n t (subst (StrictFrom t.db.last_synced_at) (sym next) (strict h)) in
      subst (IsDeliveredIn (suc n) s) (sym (round_steps n s done)) (
        ended,
        worlds
            ∙ ap (λ rows. deliveries n rows t.world) next
            ∙ ap (deliveries n (drop batch_size (pending s.db))) world,
        apps ∙ app,
        logs ∙ same,
        lefts ∙ ap (left n) next,
      )

  -- If the database answers, the dashboard accepts, and no two of the rows to be sent have the same
  -- time, then in `n` rounds the pending rows are posted in their order, each batch the next hundred
  -- and no row twice, and nothing is posted when none is left; what follows the rows posted stays
  -- pending, which is nothing if `n` hundreds are enough. The log and the state in memory are as they
  -- were.
  pub sync_rounds-IsDeliveredIn :
      Accepting machine
      → (n : ℕ) (s : Agent World) → StrictFrom s.db.last_synced_at (pending s.db)
      → IsDeliveredIn n s (sync_rounds e encode_rows n url token s)
        × (length (pending s.db) ≤ batch_size * n
            → pending (sync_rounds e encode_rows n url token s).1.db ≡ [])
  sync_rounds-IsDeliveredIn a n s h =
      let (ended, worlds, apps, logs, lefts) = rounds_deliver a n s h in
      ((ended, worlds, apps, logs, lefts), λ enough. lefts ∙ left_none n (pending s.db) enough)

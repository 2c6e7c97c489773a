-- ===== src/Auth/Replay.antt =====
-- Replays: runs of the nonce step one after the other, over one table.
use panel_agent.Common.{
  ℕ, ◌+◌, ◌≤◌, ◌<◌, ◌≡◌, refl, ◌↔◌, ◌⊎◌, inl, inr, Bool, true, false, List, [], ◌∷◌, Text, arith,
  All, text_eq_iff, if◌then◌else◌,
}
use panel_agent.Runtime.{Env, Agent, NonceRow, Db, SignedCommand, CommandPayload, ok}
use panel_agent.Auth.{
  open_envelope, is_heartbeat_ack, seen, purge, purge_db, add_nonce, check_fresh,
  check_and_consume_nonce, verify_command,
}

-- A run of `check_and_consume_nonce` whose two statements read these times.
pub record Attempt : Type 0 where
  pub nonce : Text
  pub purge_at : ℕ
  pub insert_at : ℕ

-- Whether it accepts, and the table after it.
unfoldable pub attempt : Attempt → Db → Bool × Db
attempt a db =
    if seen a.nonce (purge_db a.purge_at db).used_nonces
    then (false, purge_db a.purge_at db)
    else (true, add_nonce a.nonce a.insert_at (purge_db a.purge_at db))

unfoldable pub attempts : List Attempt → Db → Db
attempts [] db = db
attempts (a ∷ rest) db = attempts rest (attempt a db).1

-- The table holds a row of this nonce that was made at the time or later.
abbrev pub Holds : Text → ℕ → List NonceRow → Type 0
Holds nonce u [] = ⊥
Holds nonce u (r ∷ rs) = ((r.nonce ≡ nonce) × (u ≤ r.created_at)) ⊎ Holds nonce u rs

purge-Holds :
    (nonce : Text) (u t : ℕ) (rs : List NonceRow)
    → t ≤ u + 300
    → Holds nonce u rs
    → Holds nonce u (purge t rs)
unfolding purge
purge-Holds nonce u t [] h k = k
purge-Holds nonce u t (r ∷ rs) h (inl (same, later)) = ground arith
purge-Holds nonce u t (r ∷ rs) h (inr k) = ground (arith, purge-Holds nonce u t rs h k)

seen_of_Holds :
    (nonce : Text) (u : ℕ) (rs : List NonceRow) → Holds nonce u rs → seen nonce rs ≡ true
unfolding seen
seen_of_Holds nonce u [] k = absurd k
seen_of_Holds nonce u (r ∷ rs) (inl (same, later)) = ground (arith, text_eq_iff r.nonce nonce)
seen_of_Holds nonce u (r ∷ rs) (inr k) = ground (arith, seen_of_Holds nonce u rs k)

attempt-Holds :
    (nonce : Text) (u : ℕ) (a : Attempt) (db : Db)
    → a.purge_at ≤ u + 300
    → Holds nonce u db.used_nonces
    → Holds nonce u (attempt a db).1.used_nonces
unfolding attempt purge_db add_nonce
attempt-Holds nonce u a db h k = ground (arith, purge-Holds nonce u a.purge_at db.used_nonces h k)

attempts-Holds :
    (nonce : Text) (u : ℕ) (rest : List Attempt) (db : Db)
    → All (λ a. a.purge_at ≤ u + 300) rest
    → Holds nonce u db.used_nonces
    → Holds nonce u (attempts rest db).used_nonces
unfolding attempts
attempts-Holds nonce u [] db h k = k
attempts-Holds nonce u (a ∷ rest) db h k =
    attempts-Holds nonce u rest (attempt a db).1 h.1 (attempt-Holds nonce u a db h.0 k)

stored :
    (a : Attempt) (db : Db)
    → (attempt a db).0 ≡ true
    → Holds a.nonce a.insert_at (attempt a db).1.used_nonces
unfolding attempt add_nonce
stored a db h = ground arith

refused_of_seen :
    (b : Attempt) (db : Db)
    → seen b.nonce (purge b.purge_at db.used_nonces) ≡ true
    → (attempt b db).0 ≡ false
unfolding attempt purge_db
refused_of_seen b db h = ground arith

-- Once a nonce has been accepted, every later attempt with it is refused, whatever other attempts
-- come between, as long as no purge reads a time more than five minutes after the insertion.
pub replay_refused :
    (a b : Attempt) (between : List Attempt) (db : Db)
    → (attempt a db).0 ≡ true
    → b.nonce ≡ a.nonce
    → All (λ c. c.purge_at ≤ a.insert_at + 300) between
    → b.purge_at ≤ a.insert_at + 300
    → (attempt b (attempts between (attempt a db).1)).0 ≡ false
replay_refused a b between db accepted same h k =
    let held =
      attempts-Holds a.nonce a.insert_at between (attempt a db).1 h (stored a db accepted) in
    let purged =
      purge-Holds a.nonce a.insert_at b.purge_at (attempts between (attempt a db).1).used_nonces k
        held in
    refused_of_seen b (attempts between (attempt a db).1)
      (rw same (seen_of_Holds a.nonce a.insert_at _ purged))

-- Every row of the nonce is older than the time by more than five minutes.
abbrev pub IsExpired : Text → ℕ → List NonceRow → Type 0
IsExpired nonce now = All (λ r. r.nonce ≡ nonce → r.created_at + 300 < now)

expired_unseen :
    (nonce : Text) (now : ℕ) (rs : List NonceRow)
    → IsExpired nonce now rs
    → seen nonce (purge now rs) ≡ false
unfolding seen purge
expired_unseen nonce now [] h = refl
expired_unseen nonce now (r ∷ rs) h =
    ground (arith, h.0, text_eq_iff r.nonce nonce, expired_unseen nonce now rs h.1)

module _ (e : Env) where
  open e use {crypto, json, machine, config, parse_payload}

  -- A heartbeat acknowledgement that opens is accepted, whatever its timestamp and however often it
  -- was accepted before, if the database answers and the rows of its nonce are all older than five
  -- minutes.
  pub heartbeat_ack_replayed :
      (signed : SignedCommand) (p : CommandPayload json.Value) (s : Agent machine.World)
      (w1 w2 w3 w4 : machine.World) (now then_now : ℕ)
      → open_envelope crypto json parse_payload config.dashboard_verify_key config.agent_id signed
        ≡ ok p
      → is_heartbeat_ack json p.command ≡ true
      → machine.query_fails s.world ≡ (false, w1)
      → machine.clock w1 ≡ (now, w2)
      → machine.query_fails w2 ≡ (false, w3)
      → machine.clock w3 ≡ (then_now, w4)
      → IsExpired p.nonce now s.db.used_nonces
      → (verify_command e signed s).0
        ≡ ok (record {
          user_id = p.user_id;
          organization_id = p.organization_id;
          permission = p.permission;
          command = p.command;
        })
  unfolding verify_command check_fresh check_and_consume_nonce purge_db
  heartbeat_ack_replayed signed p s w1 w2 w3 w4 now then_now opened ack q1 c1 q2 c2 h =
      ground (arith, expired_unseen p.nonce now s.db.used_nonces h)

  -- When the database answers, a call of the nonce step is an attempt at the two times that its
  -- statements read: it accepts exactly when the attempt does, and leaves the tables of the attempt.
  pub check_and_consume_nonce-attempt :
      (nonce : Text) (s : Agent machine.World) (w1 w2 w3 w4 : machine.World) (now then_now : ℕ)
      → machine.query_fails s.world ≡ (false, w1)
      → machine.clock w1 ≡ (now, w2)
      → machine.query_fails w2 ≡ (false, w3)
      → machine.clock w3 ≡ (then_now, w4)
      → ((check_and_consume_nonce e nonce s).1.db
          ≡ (attempt (record { nonce = nonce; purge_at = now; insert_at = then_now }) s.db).1)
        × (((check_and_consume_nonce e nonce s).0 ≡ ok tt) ↔ (
            (attempt (record { nonce = nonce; purge_at = now; insert_at = then_now }) s.db).0
            ≡ true))
  unfolding check_and_consume_nonce attempt
  check_and_consume_nonce-attempt nonce s w1 w2 w3 w4 now then_now q1 c1 q2 c2 =
      (ground arith, ground arith)

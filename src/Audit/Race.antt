-- ===== src/Audit/Race.antt =====
-- `append` of src/audit/mod.rs reads the latest row and inserts the next one in two statements, with
-- no transaction or lock around them, so the calls of two tasks can interleave.
use panel_agent.Common.{ℕ, ◌≡◌, ◌≢◌, refl, sym, ◌∷◌, Text, text_eq, Bool, true, false, arith}
use panel_agent.Runtime.{Crypto, Db, AuditRow, latest, ok, result_check}
use panel_agent.Audit.{AuditEntry, as_str, chain_head, make_row, push_row, has_id}
use panel_agent.Audit.Chain.{IsChain}

-- An entry on its way, with its id.
pub record Job : Type 0 where
  pub id : Text
  pub entry : AuditEntry

-- How far a call has come: the `prev_hash` that it holds, once it has read and checked the latest row.
pub data Writer : Type 0 where
  waiting : Writer
  holding : (prev_hash : Text) → Writer
  finished : Writer

pub record Writers : Type 0 where
  pub db : Db
  pub first : Writer
  pub second : Writer

-- The constraints of the table: the CHECK on `result` and the primary key.
abbrev pub IsInsertable : Job → Db → Type 0
IsInsertable job db =
    (result_check (as_str job.entry.result) ≡ true) × (has_id job.id db.audit_log ≡ false)

-- The SELECT of a call, with the check, and its INSERT.
pub data WriteStep (c : Crypto) (a b : Job) (t : Writers) : Writers → Type 0 where
  read_first :
      (p : Text) (prefers : AuditRow → AuditRow → Bool)
      → t.first ≡ Writer.waiting
      → chain_head c (latest prefers t.db.audit_log) ≡ ok p
      → WriteStep c a b t (record t { first = Writer.holding p })
  insert_first :
      (p : Text) (now : ℕ)
      → t.first ≡ Writer.holding p
      → IsInsertable a t.db
      → WriteStep c a b t
          (record t { db = push_row (make_row c a.id a.entry p now) t.db; first = Writer.finished })
  read_second :
      (p : Text) (prefers : AuditRow → AuditRow → Bool)
      → t.second ≡ Writer.waiting
      → chain_head c (latest prefers t.db.audit_log) ≡ ok p
      → WriteStep c a b t (record t { second = Writer.holding p })
  insert_second :
      (p : Text) (now : ℕ)
      → t.second ≡ Writer.holding p
      → IsInsertable b t.db
      → WriteStep c a b t (record t {
        db = push_row (make_row c b.id b.entry p now) t.db;
        second = Writer.finished;
      })

pub data Reach (c : Crypto) (a b : Job) (s : Writers) : Writers → Type 0 where
  here : Reach c a b s s
  next : {t u : Writers} → Reach c a b s t → WriteStep c a b t u → Reach c a b s u

abbrev pub start : Db → Writers
start db = record { db = db; first = Writer.waiting; second = Writer.waiting }

-- In a chain, the second of two rows that name the same hash gives it as that of the first.
named_twice :
    (c : Crypto) (a b : Job) (db : Db) (p : Text) (now later : ℕ)
    → IsChain c (make_row c b.id b.entry p later ∷ make_row c a.id a.entry p now ∷ db.audit_log)
    → p ≡ (make_row c a.id a.entry p now).entry_hash
unfolding make_row
named_twice c a b db p now later (_, link, _) = link

-- The second row can still be inserted after the first, if their ids differ.
push_row-IsInsertable :
    (c : Crypto) (a b : Job) (db : Db) (p : Text) (now : ℕ)
    → IsInsertable b db
    → text_eq a.id b.id ≡ false
    → IsInsertable b (push_row (make_row c a.id a.entry p now) db)
unfolding has_id make_row
push_row-IsInsertable c a b db p now h k = ground arith

-- If the row that a query of the latest gives checks, two calls of `append`, of entries that the
-- table admits and with ids that are new and not the same, can interleave so that both insert their
-- row at the times given, and the log is then no chain, unless the hash of the first row is that of
-- the row before it: both rows name the same previous hash.
pub append_forks :
    (c : Crypto) (a b : Job) (db : Db) (p : Text) (prefers : AuditRow → AuditRow → Bool)
    (now later : ℕ)
    → chain_head c (latest prefers db.audit_log) ≡ ok p
    → IsInsertable a db
    → IsInsertable b db
    → text_eq a.id b.id ≡ false
    → (make_row c a.id a.entry p now).entry_hash ≢ p
    → (t : Writers) × Reach c a b (start db) t
      × (t.first ≡ Writer.finished)
      × (t.second ≡ Writer.finished)
      × (t.db.audit_log
          ≡ make_row c b.id b.entry p later ∷ make_row c a.id a.entry p now ∷ db.audit_log)
      × (¬ IsChain c t.db.audit_log)
append_forks c a b db p prefers now later h first second other distinct = (
  _,
  next
      (next (next (next here (read_first p prefers refl h)) (read_second p prefers refl h))
        (insert_first p now refl first))
      (insert_second p later refl (push_row-IsInsertable c a b db p now second other)),
  refl,
  refl,
  refl,
  λ chain. distinct (sym (named_twice c a b db p now later chain)),
)

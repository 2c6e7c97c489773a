-- ===== src/Audit/Chain.antt =====
-- The chain that `append` builds.
use panel_agent.Common.{
  ℕ, ◌<◌, ◌≡◌, refl, ◌⊎◌, inl, inr, some, List, [], ◌∷◌, Text, txt, arith, All, Option-cases,
  Bool-cases, Bool, not, ap, ◌≢◌,
}
use panel_agent.Runtime.{Crypto, Env, Agent, AuditRow, Db, latest, ok, panicked, result_check}
use panel_agent.Runtime.Laws.{Outcome-cases}
use panel_agent.Audit.{
  AuditEntry, as_str, recompute, chain_head, make_row, push_row, append, has_id,
}

module _ (c : Crypto) where
  abbrev pub previous_of : List AuditRow → Text
  previous_of [] = txt "genesis"
  previous_of (r ∷ rs) = r.entry_hash

  -- Newest first: every row's hash is that of its fields, and it names the hash of the row before.
  abbrev pub IsChain : List AuditRow → Type 0
  IsChain [] = Unit
  IsChain (r ∷ rs) =
      (recompute c r ≡ r.entry_hash) × (r.previous_hash ≡ previous_of rs) × IsChain rs

-- Every row is earlier than the time.
abbrev pub IsBefore : ℕ → List AuditRow → Type 0
IsBefore now = All (λ r. r.created_at < now)

-- The rows stand in the order of their times, no two of which are the same.
abbrev pub IsOrdered : List AuditRow → Type 0
IsOrdered [] = Unit
IsOrdered (r ∷ rs) = IsBefore r.created_at rs × IsOrdered rs

latest_before :
    (prefers : AuditRow → AuditRow → Bool) (now : ℕ) (rs : List AuditRow) (q : AuditRow)
    → IsBefore now rs
    → latest prefers rs ≡ some q
    → q.created_at < now
unfolding latest
latest_before prefers now [] q h k = absurd (ground arith)
latest_before prefers now (r ∷ rs) q h k = elim (Option-cases (latest prefers rs)) [
  | inl none_left ↦ ground arith
  | inr (q', eq) ↦ ground (arith, latest_before prefers now rs q' h.1 eq)
]

-- In an ordered log the latest row is the newest.
pub latest_ordered :
    (prefers : AuditRow → AuditRow → Bool) (r : AuditRow) (rs : List AuditRow)
    → IsOrdered (r ∷ rs)
    → latest prefers (r ∷ rs) ≡ some r
unfolding latest
latest_ordered prefers r rs h = elim (Option-cases (latest prefers rs)) [
  | inl none_left ↦ ground arith
  | inr (q, eq) ↦ ground (arith, latest_before prefers r.created_at rs q h.0 eq)
]

pub chain_head_previous :
    (c : Crypto) (rs : List AuditRow) (p : Text) (prefers : AuditRow → AuditRow → Bool)
    → IsOrdered rs
    → chain_head c (latest prefers rs) ≡ ok p
    → p ≡ previous_of c rs
unfolding chain_head
chain_head_previous c [] p prefers o h = unfold latest in ground arith
chain_head_previous c (r ∷ rs) p prefers o h =
    let newest = latest_ordered prefers r rs o in ground arith

module _ (e : Env) (entry : AuditEntry) (s : Agent e.machine.World) where
  open e use {crypto, machine}

  -- The choice among rows of the same time, and the world after it.
  abbrev pub tied : AuditRow → AuditRow → Bool
  tied = (machine.tie_order (machine.query_fails (machine.new_uuid s.world).1).1).0

  abbrev chosen : machine.World
  chosen = (machine.tie_order (machine.query_fails (machine.new_uuid s.world).1).1).1

  -- The clock reading of the INSERT, and the id that the row gets.
  abbrev pub insert_clock : ℕ
  insert_clock = (machine.clock (machine.query_fails chosen).1).0

  abbrev new_id : Text
  new_id = (machine.new_uuid s.world).0

  -- What a call did: nothing to the database, or one row with the hash of the latest as previous.
  pub append_changes :
      ((append e entry s).1.db ≡ s.db) × ((append e entry s).0 ≢ ok tt)
      ⊎ ((p : Text) × (chain_head crypto (latest tied s.db.audit_log) ≡ ok p)
          × ((append e entry s).1.db ≡ push_row (make_row crypto new_id entry p insert_clock) s.db))
  unfolding append
  append_changes = elim (Outcome-cases (chain_head crypto (latest tied s.db.audit_log))) [
    | inl (p, eq) ↦ elim (Bool-cases refused) [
      | inl yes_refused ↦ inl (ground arith, ground arith)
      | inr fine ↦ elim (Bool-cases fetch_fails) [
        | inl failed ↦ inl (ground arith, ground arith)
        | inr fetched ↦ elim (Bool-cases insert_fails) [
          | inl failed ↦ inl (ground arith, ground arith)
          | inr inserted ↦ elim (Bool-cases (has_id new_id s.db.audit_log)) [
            | inl double ↦ inl (ground arith, ground arith)
            | inr new ↦ inr (p, eq, ground arith)
          ]
        ]
      ]
    ]
    | inr bad ↦ inl (ground arith, ground arith)
  ]
    where
      refused : Bool
      refused = not (result_check (as_str entry.result))

      fetch_fails : Bool
      fetch_fails = (machine.query_fails (machine.new_uuid s.world).1).0

      insert_fails : Bool
      insert_fails = (machine.query_fails chosen).0

  -- If the log is a chain in the order of its times and the clock of the INSERT is after all of
  -- them, the log after `append` is again a chain in order, however the call ends.
  pub append-IsChain :
      IsChain crypto s.db.audit_log
      → IsOrdered s.db.audit_log
      → IsBefore insert_clock s.db.audit_log
      → IsChain crypto (append e entry s).1.db.audit_log
        × IsOrdered (append e entry s).1.db.audit_log
  unfolding make_row recompute
  append-IsChain h o b = elim append_changes [
    | inl same ↦ rw (ap (λ (db : Db). db.audit_log) same.0) (h, o)
    | inr (p, eq, added) ↦
        rw (ap (λ (db : Db). db.audit_log) added)
          ((refl, chain_head_previous crypto s.db.audit_log p tied o eq, h), (b, o))
  ]

  -- One more row, of the entry's fields, with a hash that checks.
  abbrev pub IsAppended : Type 0
  IsAppended =
      (row : AuditRow) × ((append e entry s).1.db ≡ push_row row s.db)
      × (row.agent_id ≡ entry.agent_id)
      × (row.user_id ≡ entry.user_id)
      × (row.organization_id ≡ entry.organization_id)
      × (row.command_type ≡ entry.command_type)
      × (row.result ≡ as_str entry.result)
      × (row.error ≡ entry.error)
      × (recompute crypto row ≡ row.entry_hash)

  -- When `append` succeeds, the log has exactly one more row, of the entry's fields.
  pub append-ok : (append e entry s).0 ≡ ok tt → IsAppended
  unfolding make_row recompute
  append-ok h = elim append_changes [
    | inl same ↦ absurd (same.1 h)
    | inr (p, eq, added) ↦ (_, added, refl, refl, refl, refl, refl, refl, refl)
  ]

  head_total : chain_head crypto (latest tied s.db.audit_log) ≢ panicked
  unfolding chain_head
  head_total = ground arith

  -- A call never panics.
  pub append_total : (append e entry s).0 ≢ panicked
  unfolding append
  append_total = ground (arith, head_total)

  -- The state besides the tables is not touched.
  pub append_app : (append e entry s).1.app ≡ s.app
  unfolding append
  append_app = ground (arith, head_total)

  -- A call that does not succeed leaves the tables as they were.
  pub append-err : (append e entry s).0 ≢ ok tt → (append e entry s).1.db ≡ s.db
  unfolding append
  append-err h = ground (arith, head_total)

-- ===== src/Audit.antt =====
-- src/audit/mod.rs: the hash-chained audit log.
pub mod Chain
pub mod Linked
pub mod Race
pub mod Calm
pub mod Reads
pub mod Tamper
pub mod Limits
use panel_agent.Common.{
  ℕ, Bool, true, false, not, Option, none, some, List, [], ◌∷◌, ◌++◌, Text, txt, text_eq, any,
  if◌then◌else◌,
}
use panel_agent.Runtime.{
  Crypto, Env, AuditRow, Db, latest, result_check, M, Outcome, ok, err, ◌>>=◌, ◌>>◌, ask, gets_db,
  modify_db, refuse_if, must_query, from_outcome,
}

pub data AuditResult : Type 0 where
  success rejected rejected_rate_limit failed : AuditResult

unfoldable pub as_str : AuditResult → Text
unfolding txt
as_str AuditResult.success = txt "success"
as_str AuditResult.rejected = txt "rejected"
as_str AuditResult.rejected_rate_limit = txt "rejected_rate_limit"
as_str AuditResult.failed = txt "failed"

pub record AuditEntry : Type 0 where
  pub agent_id : Text
  pub organization_id : Option Text
  pub user_id : Option Text
  pub command_type : Text
  pub result : AuditResult
  pub error : Option Text

pub data AuditError : Type 0 where
  fetch_last integrity_violation insert_entry : AuditError

abbrev or_else : Text → Option Text → Text
or_else d none = d
or_else d (some t) = t

-- `[0u8; 16]`
abbrev zero_uuid : Text
zero_uuid = 0 ∷ 0 ∷ 0 ∷ 0 ∷ 0 ∷ 0 ∷ 0 ∷ 0 ∷ 0 ∷ 0 ∷ 0 ∷ 0 ∷ 0 ∷ 0 ∷ 0 ∷ 0 ∷ []

-- The bytes that the successive `update` calls feed to the hash.
unfoldable pub hash_input :
    Text → Text → Text → Option Text → Option Text → Text → Text → Option Text → Text
hash_input prev_hash id agent_id organization_id user_id command_type result error =
    prev_hash
    ++ (id
        ++ (agent_id
            ++ (or_else zero_uuid organization_id
                ++ (or_else zero_uuid user_id ++ (command_type ++ (result ++ or_else [] error))))))

module _ (c : Crypto) where
  unfoldable pub compute_entry_hash :
      Text → Text → Text → Option Text → Option Text → Text → Text → Option Text → Text
  compute_entry_hash prev_hash id agent_id organization_id user_id command_type result error =
      c.sha256_hex
        (hash_input prev_hash id agent_id organization_id user_id command_type result error)

  -- The hash of a stored row, computed again from its fields.
  unfoldable pub recompute : AuditRow → Text
  unfolding compute_entry_hash
  recompute r =
      compute_entry_hash r.previous_hash r.id r.agent_id r.organization_id r.user_id r.command_type
        r.result r.error

  -- The `previous_hash` of the next row, from the last one.
  unfoldable pub chain_head : Option AuditRow → Outcome AuditError Text
  chain_head none = ok (txt "genesis")
  chain_head (some r) =
      if not (text_eq (recompute r) r.entry_hash)
      then err AuditError.integrity_violation
      else ok r.entry_hash

  -- The row that the INSERT writes.
  unfoldable pub make_row : Text → AuditEntry → Text → ℕ → AuditRow
  unfolding compute_entry_hash
  make_row id entry prev_hash now = record {
    id = id;
    agent_id = entry.agent_id;
    organization_id = entry.organization_id;
    user_id = entry.user_id;
    command_type = entry.command_type;
    result = as_str entry.result;
    error = entry.error;
    previous_hash = prev_hash;
    entry_hash =
        compute_entry_hash prev_hash id entry.agent_id entry.organization_id entry.user_id
          entry.command_type (as_str entry.result) entry.error;
    created_at = now;
  }

abbrev pub push_row : AuditRow → Db → Db
push_row row db = record db { audit_log = row ∷ db.audit_log }

-- `id UUID PRIMARY KEY`
unfoldable pub has_id : Text → List AuditRow → Bool
has_id id rows = any (λ row. text_eq row.id id) rows

-- `append`. The INSERT fails if the database does not answer, its check on `result` refuses, or a row
-- has the id.
module _ (e : Env) where
  open e use {crypto, machine}
  open machine use {World, clock, new_uuid, tie_order}

  unfoldable pub append : AuditEntry → M World AuditError (Unit {0})
  append entry = do
    id ← ask new_uuid
    must_query machine AuditError.fetch_last
    prefers ← ask tie_order
    last ← gets_db (λ db. latest prefers db.audit_log)
    prev_hash ← from_outcome (chain_head crypto last)
    must_query machine AuditError.insert_entry
    now ← ask clock
    refuse_if (not (result_check (as_str entry.result))) AuditError.insert_entry
    taken ← gets_db (λ db. has_id id db.audit_log)
    refuse_if taken AuditError.insert_entry
    modify_db (push_row (make_row crypto id entry prev_hash now))

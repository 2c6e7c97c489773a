-- ===== src/Runtime/Tables.antt =====
-- The tables of migrations/ that the agent writes. The rows stand newest first.
use panel_agent.Common.{
  ℕ, Bool, Option, none, some, List, [], ◌∷◌, Text, txt, text_eq, ltb, ◌||◌, if◌then◌else◌,
}

pub record AuditRow : Type 0 where
  pub id : Text
  pub agent_id : Text
  pub organization_id : Option Text
  pub user_id : Option Text
  pub command_type : Text
  pub result : Text
  pub error : Option Text
  pub previous_hash : Text
  pub entry_hash : Text
  pub created_at : ℕ

pub record NonceRow : Type 0 where
  pub nonce : Text
  pub created_at : ℕ

-- One row of `nftables_state`; the timestamp is not read.
pub record ChainRow : Type 0 where
  pub chain : Text
  pub body : Text
  pub wg_port : ℕ

pub record DeploymentRow : Type 0 where
  pub tenant_id : Text
  pub project_id : Text
  pub compose_path : Text
  pub desired : Text

pub record NginxRow : Type 0 where
  pub id : Text
  pub config_content : Text
  pub updated_at : ℕ

pub record Db : Type 0 where
  pub audit_log : List AuditRow
  pub used_nonces : List NonceRow
  pub last_synced_at : ℕ
  pub nginx_configs : List NginxRow
  pub nftables_state : List ChainRow
  pub container_deployments : List DeploymentRow
  pub role_password : Text  -- of the role `lynx_agent_app`

-- `CHECK (result IN ('success', 'rejected', 'failed'))`, migrations/001_init.sql; no later
-- migration changes it.
unfoldable pub result_check : Text → Bool
unfolding txt text_eq
result_check r =
    text_eq r (txt "success") || (text_eq r (txt "rejected") || text_eq r (txt "failed"))

-- `ORDER BY created_at DESC LIMIT 1`: a row of the largest time. The query leaves open which one, and
-- `prefers` decides.
abbrev pub later_row : (AuditRow → AuditRow → Bool) → AuditRow → Option AuditRow → Option AuditRow
later_row prefers r none = some r
later_row prefers r (some q) =
    if ltb r.created_at q.created_at
    then some q
    else if ltb q.created_at r.created_at
    then some r
    else if prefers r q
    then some r
    else some q

unfoldable pub latest : (AuditRow → AuditRow → Bool) → List AuditRow → Option AuditRow
latest prefers [] = none
latest prefers (r ∷ rs) = later_row prefers r (latest prefers rs)

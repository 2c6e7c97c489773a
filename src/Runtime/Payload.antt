-- ===== src/Runtime/Payload.antt =====
-- The types of src/auth/mod.rs, the fields of src/config.rs that are read after start-up, and all
-- that the handlers are given.
use panel_agent.Common.{ℕ, Bool, Option, Text, ltb, ◌==◌}
use panel_agent.Runtime.Interface.{Crypto, Json, Machine}

pub data PermissionLevel : Type 0 where
  read write destructive : PermissionLevel

-- The derived order: by position.
abbrev pub rank : PermissionLevel → ℕ
rank PermissionLevel.read = 0
rank PermissionLevel.write = 1
rank PermissionLevel.destructive = 2

abbrev pub perm_eq : PermissionLevel → PermissionLevel → Bool
perm_eq p q = rank p == rank q

abbrev pub perm_lt : PermissionLevel → PermissionLevel → Bool
perm_lt p q = ltb (rank p) (rank q)

pub record SignedCommand : Type 0 where
  pub payload : Text
  pub signature : Text

-- `V` is `serde_json::Value`. The timestamp is the bit pattern of an i64.
pub record CommandPayload (V : Type 0) : Type 0 where
  pub nonce : Text
  pub timestamp : ℕ
  pub agent_id : Text
  pub user_id : Text
  pub organization_id : Option Text
  pub permission : PermissionLevel
  pub command : V

pub record VerifiedCommand (V : Type 0) : Type 0 where
  pub user_id : Text
  pub organization_id : Option Text
  pub permission : PermissionLevel
  pub command : V

pub record Config : Type 0 where
  pub database_url : Text
  pub agent_id : Text
  pub version : Text
  pub dashboard_verify_key : Text
  pub internal_token : Text
  pub dashboard_url : Option Text
  pub sync_token : Option Text
  pub dashboard_port : Option ℕ

-- `AgentCert` of src/cert.rs; `expires_at` is the bit pattern of an i64.
pub record AgentCert : Type 0 where
  pub agent_id : Text
  pub issued_at : ℕ
  pub expires_at : ℕ

-- `SignedCert` of src/cert.rs
pub record SignedCert : Type 0 where
  pub payload : Text
  pub signature : Text

pub record Env : Type 1 where
  pub crypto : Crypto
  pub json : Json
  pub machine : Machine
  pub config : Config
  -- `serde_json::from_slice::<CommandPayload>`, which the derive generates
  pub parse_payload : Text → Option (CommandPayload json.Value)
  pub parse_cert : Text → Option AgentCert
  pub encode_cert : SignedCert → Option Text
  -- the url crate: the URL with the password set, if it parses and takes one
  pub with_password : Text → Text → Option Text

-- ===== src/Runtime/Interface.antt =====
-- What the agent takes from outside its own code: the libraries for signatures, hashes and JSON,
-- and the machine (processes, files, clock, network), as interfaces.
use panel_agent.Common.{ℕ, Bool, Option, List, Text}
use panel_agent.Runtime.Tables.{Db, AuditRow}
use panel_agent.State.{AppState}

-- base64ct, ed25519-dalek and sha2.
pub record Crypto : Type 0 where
  pub decode_base64url : Text → Option Text  -- `Base64UrlUnpadded::decode_vec`
  pub key_is_valid : Text → Bool  -- `VerifyingKey::from_bytes` succeeds
  pub verify : Text → Text → Text → Bool  -- key, message, signature of 64 bytes
  pub sha256_hex : Text → Text

-- serde_json: values that are read by `get` and the `as_` methods.
pub record Json : Type 1 where
  pub Value : Type 0
  pub get : Text → Value → Option Value
  pub as_str : Value → Option Text
  pub as_u64 : Value → Option ℕ
  pub as_bool : Value → Option Bool
  pub as_f64 : Value → Option Text  -- `as_f64`, then the text that `format!` gives of it
  pub as_array : Value → Option (List Value)
  pub from_slice : Text → Option Value

pub record Cmd : Type 0 where
  pub program : Text
  pub args : List Text
  pub env : List (Text × Text)
  pub stdin : Text

-- `failed` is an error to start the process, to write its input or to wait for it.
pub data Proc : Type 0 where
  failed : Proc
  exited : (success : Bool) (stdout : Text) → Proc

pub data FileOp : Type 0 where
  create_dir_all remove exists : (path : Text) → FileOp
  write : (path content : Text) → FileOp
  write_private : (path content : Text) → FileOp  -- created with mode 0o600
  copy rename : (from to : Text) → FileOp
  set_mode : (path : Text) (mode : ℕ) → FileOp

-- A background task that a handler starts.
pub data Task : Type 0 where
  perform_update : (version download_url sig_url : Text) → Task
  confirm_migration : (target_url sync_token agent_id : Text) → Task
  reboot : Task

-- An authorised POST, and its reply: `none` if the request fails.
pub record Post : Type 0 where
  pub url : Text
  pub token : Text
  pub body : Text

pub record Reply : Type 0 where
  pub status : ℕ
  pub body : Text

pub record Machine : Type 1 where
  pub World : Type 0
  pub run : Cmd → World → Proc × World
  pub file : FileOp → World → Bool × World
  pub read_file : Text → World → Option Text × World
  pub env_var : Text → World → Option Text × World  -- `std::env::var`
  pub clock : World → ℕ × World  -- seconds since the epoch, for the agent and for PostgreSQL
  pub instant : World → ℕ × World  -- `Instant::now()`, in seconds
  pub new_uuid : World → Text × World
  pub query_fails : World → Bool × World  -- whether the next query reaches the database
  pub random_hex : ℕ → World → Text × World
  pub spawn : Task → World → World
  pub post : Post → World → Option Reply × World
  -- Whether the query prefers the first of two rows that its ORDER BY leaves in either order.
  pub tie_order : World → (AuditRow → AuditRow → Bool) × World
  -- The levels that RUST_LOG turns on; the arguments of a log line of another level are not read.
  pub logs_error : Bool
  pub logs_info : Bool
  pub logs_warn : Bool

-- The state that a handler works on.
pub record Agent (W : Type 0) : Type 0 where
  pub app : AppState
  pub db : Db
  pub world : W

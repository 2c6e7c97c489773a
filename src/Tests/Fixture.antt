-- ===== src/Tests/Fixture.antt =====
-- A small machine, a toy signature scheme and a toy JSON, for the examples.
use panel_agent.Common.{
  ℕ, Bool, true, false, not, Option, none, some, List, [], ◌∷◌, ◌++◌, Text, txt, text_eq,
  if◌then◌else◌,
}
use panel_agent.State.{initial}
use panel_agent.Runtime.{
  Crypto, Json, Machine, Proc, Env, Config, Db, PermissionLevel, Agent, SignedCommand,
  VerifiedCommand,
}
use panel_agent.Runtime.Web.{Web, Ip}

-- A clock that stands still, commands that all print the same, and a query that fails or not.
pub record Scene : Type 0 where
  pub now : ℕ
  pub listing : Text
  pub refuses : Bool

-- Either a text, or an object of texts.
pub data Js : Type 0 where
  str : Text → Js
  obj : List (Text × Text) → Js

abbrev field : List (Text × Text) → Text → Option Js
field [] key = none
field (f ∷ fs) key = let rest = field fs key in if text_eq f.0 key then some (str f.1) else rest

abbrev js_get : Text → Js → Option Js
js_get key (str t) = none
js_get key (obj fs) = field fs key

abbrev js_str : Js → Option Text
js_str (str t) = some t
js_str (obj fs) = none

abbrev pub toy_json : Json
toy_json = record {
  Value = Js;
  get = js_get;
  as_str = js_str;
  as_u64 = λ _. none;
  as_bool = λ _. none;
  as_f64 = λ _. none;
  as_array = λ _. none;
  from_slice = λ t. some (str t);
}

-- A "hash" that keeps its input, behind sixteen bytes.
abbrev pub toy_hash : Text → Text
toy_hash t = 0 ∷ 0 ∷ 0 ∷ 0 ∷ 0 ∷ 0 ∷ 0 ∷ 0 ∷ 0 ∷ 0 ∷ 0 ∷ 0 ∷ 0 ∷ 0 ∷ 0 ∷ 0 ∷ t

abbrev pub toy_crypto : Crypto
toy_crypto = record {
  decode_base64url = λ t. some t;
  key_is_valid = λ _. true;
  verify = λ key message signature. text_eq key (b'k' ∷ []);
  sha256_hex = toy_hash;
}

abbrev pub scene_machine : Machine
scene_machine = record {
  World = Scene;
  run = λ c w. (Proc.exited (not w.refuses) w.listing, w);
  file = λ _ w. (true, w);
  read_file = λ _ w. (none, w);
  env_var = λ _ w. (none, w);
  clock = λ w. (w.now, w);
  instant = λ w. (w.now, w);
  new_uuid = λ w. (b'i' ∷ [], w);
  query_fails = λ w. (false, w);
  random_hex = λ _ w. (b'f' ∷ [], w);
  spawn = λ _ w. w;
  post = λ _ w. (none, w);
  tie_order = λ w. (λ _ _. true, w);
  logs_error = true;
  logs_warn = true;
  logs_info = true;
}

abbrev pub toy_config : Config
toy_config = record {
  database_url = [];
  agent_id = b'a' ∷ [];
  version = [];
  dashboard_verify_key = b'k' ∷ [];
  internal_token = b't' ∷ [];
  dashboard_url = none;
  sync_token = none;
  dashboard_port = none;
}

-- Every payload is the command, with the given permission and time; the nonce is its bytes.
abbrev pub env_of : Js → PermissionLevel → ℕ → Env
env_of command permission time = record {
  crypto = toy_crypto;
  json = toy_json;
  machine = scene_machine;
  config = toy_config;
  parse_payload = λ bytes. some (record {
    nonce = bytes;
    timestamp = time;
    agent_id = b'a' ∷ [];
    user_id = b'u' ∷ [];
    organization_id = none;
    permission = permission;
    command = command;
  });
  parse_cert = λ _. none;
  encode_cert = λ _. none;
  with_password = λ _ _. none;
}

abbrev pub empty_db : Db
empty_db = record {
  audit_log = [];
  used_nonces = [];
  last_synced_at = 0;
  nginx_configs = [];
  nftables_state = [];
  container_deployments = [];
  role_password = [];
}

abbrev pub scene : ℕ → Scene
scene now = record { now = now; listing = b'r' ∷ []; refuses = false }

abbrev pub agent_at : ℕ → Agent Scene
agent_at now = record { app = initial now; db = empty_db; world = scene now }

abbrev pub eight : Text
eight = 1 ∷ 2 ∷ 3 ∷ 4 ∷ 5 ∷ 6 ∷ 7 ∷ 8 ∷ []

abbrev twice : Text → Text
twice t = t ++ t

-- A command with a signature of 64 bytes.
abbrev pub signed_command : SignedCommand
signed_command = record { payload = b'p' ∷ []; signature = twice (twice (twice eight)) }

-- `{ "type": … }`
abbrev pub command_named : Text → Js
command_named name = obj ((txt "type", name) ∷ [])

abbrev pub verified_with : Js → PermissionLevel → VerifiedCommand Js
verified_with command permission = record {
  user_id = b'u' ∷ [];
  organization_id = none;
  permission = permission;
  command = command;
}

-- Every download is of 64 bytes, from one public address.
abbrev pub toy_web : Web Scene Js
toy_web = record {
  parse_url = λ _. some (record { host = some (txt "github.com"); port = some 443 });
  lookup_host = λ _ w. (some (Ip.v4 140 82 121 4 ∷ []), w);
  build_client = λ w. (true, w);
  get = λ _ _ w. (
    some (record {
      status = 200;
      content_length = none;
      body = some (txt "0123456789abcdef0123456789abcdef0123456789abcdef0123456789abcdef");
    }),
    w,
  );
  get_json = λ _ _ w. (none, w);
  is_healthy = λ _ w. (true, w);
  sleep = λ _ w. w;
  timestamp = λ w. ([], w);
}

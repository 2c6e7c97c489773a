-- ===== src/Settings.antt =====
-- src/config.rs: the configuration, read from the environment and from the files that it names. The
-- UUID and base64 readings are parameters.

use panel_agent.Common.{
  ℕ, ◌^◌, not, Option, none, some, Text, txt, ◌++◌, trim, parse_uint, length, ◌==◌,
}
use panel_agent.Runtime.{Machine, Config, M, ◌>>=◌, ◌>>◌, pure, throw, ask, or_throw, refuse_if}
pub mod Loading

-- The name of the variable, and what is wrong.
pub data ConfigError : Type 0 where
  required unreadable not_uuid not_base64 not_32_bytes : (name : Text) → ConfigError

-- The fields of `Config` that are read after the start, and those of the listener.
pub record Settings : Type 0 where
  pub config : Config
  pub listen_addr : Text
  pub tls_cert_der : Option Text
  pub tls_key_der : Option Text
  pub tls_ca_cert_der : Option Text

abbrev or_text : Text → Option Text → Text
or_text d none = d
or_text d (some t) = t

module _ (m : Machine) where
  open m use {World, env_var, read_file}

  abbrev secret_file : Text → Text → M World ConfigError Text
  secret_file name path = do
    val ← ask (read_file path)
    content ← or_throw val (ConfigError.unreadable name)
    pure (trim content)

  abbrev secret_value : Text → M World ConfigError Text
  secret_value name = do val ← ask (env_var name); or_throw val (ConfigError.required name)

  -- The file that `…_FILE` names, or the variable itself.
  unfoldable pub load_secret : Text → M World ConfigError Text
  unfolding txt trim
  load_secret env = do
    path ← ask (env_var (env ++ txt "_FILE"))
    elim path [ some p ↦ secret_file env p | none ↦ secret_value env ]

  abbrev trimmed :
      Option Text → M World ConfigError (Option Text) → M World ConfigError (Option Text)
  trimmed none other = other
  trimmed (some content) other = pure (some (trim content))

  abbrev opt_value : Text → M World ConfigError (Option Text)
  opt_value name = ask (env_var name)

  abbrev opt_file : Text → Text → M World ConfigError (Option Text)
  opt_file name path = do val ← ask (read_file path); trimmed val (opt_value name)

  unfoldable pub load_secret_opt : Text → M World ConfigError (Option Text)
  unfolding txt trim
  load_secret_opt env = do
    path ← ask (env_var (env ++ txt "_FILE"))
    elim path [ some p ↦ opt_file env p | none ↦ opt_value env ]

  -- The bytes of the file that the variable names, if it can be read.
  unfoldable pub load_der_file_opt : Text → M World ConfigError (Option Text)
  load_der_file_opt env = do
    path ← ask (env_var env)
    elim path [ some p ↦ ask (read_file p) | none ↦ pure none ]

  abbrev parse_port : Option Text → Option ℕ
  parse_port none = none
  parse_port (some s) = parse_uint (2 ^ 16) s

  module _ (decode_base64 : Text → Option Text) where
    unfoldable pub load_key32 : Text → M World ConfigError Text
    unfolding trim
    load_key32 env = do
      raw ← load_secret env
      bytes ← or_throw (decode_base64 (trim raw)) (ConfigError.not_base64 env)
      refuse_if (not (length bytes == 32)) (ConfigError.not_32_bytes env)
      pure bytes

    -- What is read after the four that must be there.
    unfoldable pub load_optional : Text → Text → Text → Text → Text → M World ConfigError Settings
    unfolding txt parse_uint
    load_optional package_version database_url agent_id key token = do
      listen_addr ← ask (env_var (txt "LISTEN_ADDR"))
      dashboard_url ← ask (env_var (txt "DASHBOARD_URL"))
      sync_token ← load_secret_opt (txt "SYNC_TOKEN")
      version ← ask (env_var (txt "AGENT_VERSION"))
      tls_cert_der ← load_der_file_opt (txt "TLS_CERT_DER_FILE")
      tls_key_der ← load_der_file_opt (txt "TLS_KEY_DER_FILE")
      tls_ca_cert_der ← load_der_file_opt (txt "TLS_CA_CERT_DER_FILE")
      dashboard_port ← ask (env_var (txt "DASHBOARD_PORT"))
      pure (record {
        config = record {
          database_url = database_url;
          agent_id = agent_id;
          version = or_text package_version version;
          dashboard_verify_key = key;
          internal_token = token;
          dashboard_url = dashboard_url;
          sync_token = sync_token;
          dashboard_port = parse_port dashboard_port;
        };
        listen_addr = or_text (txt "0.0.0.0:9090") listen_addr;
        tls_cert_der = tls_cert_der;
        tls_key_der = tls_key_der;
        tls_ca_cert_der = tls_ca_cert_der;
      })

    unfoldable pub load : (Text → Option Text) → Text → M World ConfigError Settings
    unfolding txt
    load parse_uuid package_version = do
      database_url ← load_secret (txt "DATABASE_URL")
      id_text ← ask (env_var (txt "AGENT_ID"))
      agent_id_str ← or_throw id_text (ConfigError.required (txt "AGENT_ID"))
      agent_id ← or_throw (parse_uuid agent_id_str) (ConfigError.not_uuid (txt "AGENT_ID"))
      dashboard_verify_key ← load_key32 (txt "DASHBOARD_VERIFY_KEY")
      internal_token ← load_secret (txt "INTERNAL_TOKEN")
      load_optional package_version database_url agent_id dashboard_verify_key internal_token

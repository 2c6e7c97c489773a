-- ===== src/Tests/Settings.antt =====
-- An example for the configuration.
use panel_agent.Common.{
  Option, none, some, List, [], ◌∷◌, Text, txt, text_eq, if◌then◌else◌, ◌≡◌, refl, trim, parse_uint,
}
use panel_agent.Runtime.{Machine, ok}
use panel_agent.Settings.{
  load, load_secret, load_key32, load_optional, load_secret_opt, load_der_file_opt,
}
use panel_agent.Tests.Fixture.{scene_machine, agent_at}

abbrev a_key : Text
unfolding txt
a_key = txt "0123456789abcdef0123456789abcdef"

abbrev variable : List (Text × Text) → Text → Option Text
variable [] name = none
variable (v ∷ vs) name = let rest = variable vs name in if text_eq v.0 name then some v.1 else rest

-- The four variables that must be there, and no file.
abbrev variables : List (Text × Text)
unfolding txt
variables =
    (txt "DATABASE_URL", txt "postgres")
    ∷ (txt "AGENT_ID", txt "a1")
    ∷ (txt "DASHBOARD_VERIFY_KEY", a_key)
    ∷ (txt "INTERNAL_TOKEN", txt "secret")
    ∷ []

abbrev a_machine : Machine
a_machine = record scene_machine { env_var = λ name w. (variable variables name, w) }

-- The start with no more than these.
loads_variables :
    (load a_machine (λ t. some t) (λ t. some t) [] (agent_at 1000)).0
    ≡ ok (record {
      config = record {
        database_url = txt "postgres";
        agent_id = txt "a1";
        version = [];
        dashboard_verify_key = a_key;
        internal_token = txt "secret";
        dashboard_url = none;
        sync_token = none;
        dashboard_port = none;
      };
      listen_addr = txt "0.0.0.0:9090";
      tls_cert_der = none;
      tls_key_der = none;
      tls_ca_cert_der = none;
    })
unfolding load load_secret load_key32 load_optional load_secret_opt load_der_file_opt txt text_eq
    trim parse_uint
loads_variables = refl

-- ===== src/Tests/Background.antt =====
-- Examples for the tasks that run beside the handlers.
use panel_agent.Common.{
  ℕ, ◌≡◌, refl, true, Option, none, some, List, [], ◌∷◌, Text, txt, arith, length, ◌==◌, decimal,
  starts_with, strip_prefix, ◌<◌, parse_uint, splitn, drop_while, text_eq, ◌*◌, ◌≤◌,
}
use panel_agent.Runtime.{Env, Machine, Agent, Outcome, AuditRow, AgentError, PermissionLevel, ok}
use panel_agent.Runtime.Web.{Web}
use panel_agent.Sync.{sync_rounds, pending, sort_rows, insert_row, is_success, batch_size}
use panel_agent.Sync.Batch.{Accepting}
use panel_agent.Sync.Delivery.{IsDeliveredIn, sync_rounds-IsDeliveredIn}
use panel_agent.Conflict.{incompatible, check_all}
use panel_agent.Conflict.Lockdown.{IsRound, check_all-IsRound}
use panel_agent.Update.{
  Exit, UpdateError, perform_update, install, validate_github_url, is_allowed,
  build_ssrf_safe_client, is_private_ip, download_bytes, verify_signature, load_verify_key,
  absent_secs_of, absent_threshold_secs, first_version, fetch_latest_agent_version, check_and_apply,
  fallback_round,
}
use panel_agent.Update.Absence.{IsNewRelease, fallback_round-some}
use panel_agent.State.{initial}
use panel_agent.Update.Soundness.{IsVerified, perform_update-ok}
use panel_agent.Update.Version.{Version, parse_semver, is_newer, part_value}
use panel_agent.Update.Version.RoundTrip.{print, parse_semver-print}
use panel_agent.Tests.Fixture.{
  Js, obj, toy_json, toy_config, Scene, scene_machine, toy_web, toy_crypto, env_of, agent_at,
  command_named, empty_db,
}

abbrev accepting_machine : Machine
accepting_machine = record scene_machine {
  post = λ _ w. (some (record { status = 200; body = [] }), w);
}

abbrev toy_env : Env
toy_env = env_of (command_named (txt "nginx.deploy")) PermissionLevel.read 1000

abbrev sync_env : Env
sync_env = record toy_env { machine = accepting_machine }

accepting : Accepting accepting_machine
unfolding is_success
accepting = record { answers = λ _. refl; accepts = λ _ _. (_, (refl, refl)) }

abbrev row_at : ℕ → AuditRow
row_at t = record {
  id = [];
  agent_id = [];
  organization_id = none;
  user_id = none;
  command_type = [];
  result = [];
  error = none;
  previous_hash = [];
  entry_hash = [];
  created_at = t;
}

-- Two rows of different times.
abbrev behind : Agent Scene
behind = record (agent_at 1000) { db = record empty_db { audit_log = row_at 6 ∷ row_at 5 ∷ [] } }

abbrev encode : List AuditRow → Text
encode _ = []

sync_rounds-IsDeliveredIn_example :
    IsDeliveredIn sync_env encode
      (txt "u")
      (txt "t")
      1
      behind
      (sync_rounds sync_env encode 1 (txt "u") (txt "t") behind)
    × (length (pending behind.db) ≤ batch_size * 1
        → pending (sync_rounds sync_env encode 1 (txt "u") (txt "t") behind).1.db ≡ [])
unfolding pending sort_rows insert_row
sync_rounds-IsDeliveredIn_example =
    sync_rounds-IsDeliveredIn sync_env encode (txt "u") (txt "t") accepting 1 behind
      (omega arith, (omega arith, tt))

check_all-IsRound_example :
    IsRound toy_env
      (txt "os error 2")
      AgentError
      incompatible
      (agent_at 1000)
      (check_all toy_env (txt "os error 2") {E = AgentError} incompatible (agent_at 1000))
check_all-IsRound_example =
    check_all-IsRound toy_env (txt "os error 2") AgentError incompatible (agent_at 1000)

abbrev v1_10_0 : Version
v1_10_0 = record { major = 1; minor = 10; patch = 0 }

abbrev v1_9_3 : Version
v1_9_3 = record { major = 1; minor = 9; patch = 3 }

parse_semver-print_example :
    (parse_semver (print v1_10_0) ≡ v1_10_0)
    × (parse_semver (b'v' ∷ print v1_10_0) ≡ v1_10_0)
    × (is_newer (print v1_10_0) (print v1_9_3) ≡ true)
parse_semver-print_example =
    parse_semver-print v1_10_0 v1_9_3 (omega arith, (omega arith, omega arith))
      (omega arith, (omega arith, omega arith))

-- A signature scheme that asks for a key of 32 bytes only.
abbrev release_env : Env
release_env = record toy_env {
  crypto = record toy_crypto { verify = λ key message signature. length key == 32 };
}

abbrev decode_any : Text → Option Text
decode_any _ = some (txt "0123456789abcdef0123456789abcdef")

abbrev binary_url : Text
binary_url = txt "https://github.com/a"

abbrev updated : Outcome UpdateError Exit × Agent Scene
updated = perform_update release_env toy_web decode_any [] binary_url binary_url (agent_at 1000)

perform_update-ok_example :
    IsVerified release_env toy_web decode_any binary_url binary_url (ok (Exit.exits 0), updated.1)
unfolding perform_update install validate_github_url is_allowed build_ssrf_safe_client is_private_ip
    download_bytes verify_signature load_verify_key txt starts_with decimal
perform_update-ok_example =
    perform_update-ok release_env toy_web decode_any [] binary_url binary_url (Exit.exits 0)
      (agent_at 1000) updated.1 refl

-- A dashboard that has not been there, and a release.
abbrev lonely_env : Env
lonely_env = record release_env {
  json = record toy_json { as_array = λ v. some (v ∷ []) };
  config = record toy_config {
    dashboard_url = some (txt "http://10.0.0.1");
    version = txt "1.2.3";
  };
}

abbrev releasing_web : Web Scene Js
releasing_web = record toy_web {
  get_json = λ _ _ w. (some (obj ((txt "tag_name", txt "v1.3.0") ∷ [])), w);
}

abbrev fallen_back : Outcome AgentError (Option Exit) × Agent Scene
fallen_back =
    fallback_round lonely_env releasing_web decode_any {E = AgentError} (txt "x86_64")
      (agent_at 1000)

fallback_round-some_example :
    ((url : Text) × (lonely_env.config.dashboard_url ≡ some url))
    × ((absent_threshold_secs < absent_secs_of (agent_at 1000).app.last_dashboard_contact 1000)
        × IsNewRelease lonely_env releasing_web decode_any (txt "x86_64") (Exit.exits 0))
unfolding fallback_round check_and_apply fetch_latest_agent_version first_version is_newer
    parse_semver absent_secs_of perform_update install validate_github_url is_allowed
    build_ssrf_safe_client is_private_ip download_bytes verify_signature load_verify_key txt
    starts_with decimal strip_prefix initial parse_uint splitn drop_while part_value text_eq
fallback_round-some_example =
    fallback_round-some lonely_env releasing_web decode_any (txt "x86_64") AgentError
      (agent_at 1000) fallen_back.1 (Exit.exits 0) refl

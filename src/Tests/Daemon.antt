-- ===== src/Tests/Daemon.antt =====
-- Examples for the whole of the daemon.
use panel_agent.Common.{
  ◌≡◌, refl, true, false, none, some, List, [], ◌∷◌, txt, text_eq, strip_prefix,
}
use panel_agent.State.{
  LockdownReason, initial, set_lockdown, is_locked_down, heartbeat_watchdog, check_cmd_rate,
}
use panel_agent.State.Lockdown.{IsStuck, IsConsistent}
use panel_agent.Runtime.{Env, Agent, AgentError, PermissionLevel, err, latest, result_check}
use panel_agent.Runtime.Ends.{Extends}
use panel_agent.Audit.Chain.{IsChain}
use panel_agent.Auth.{
  verify_bearer, verify_command, check_fresh, check_and_consume_nonce, open_envelope,
  is_heartbeat_ack, purge, seen, purge_db, add_nonce, is_stale, skew_of,
}
use panel_agent.Audit.{append, as_str, chain_head, make_row, has_id}
use panel_agent.Handlers.System.{
  execute_command, run_verified_command, refuse_unverified, unknown_entry, record_result,
  executed_entry, command_dispatch, dispatch, kind_of, find_kind, command_type, audit_result_of,
}
use panel_agent.Nftables.{check_once}
use panel_agent.WsClient.{Socket, Event}
use panel_agent.Daemon.Routes.{Request, Method, handle_request, route_of, serve}
use panel_agent.Daemon.Turns.{Outside, TaskTurn, run_turn, heartbeat_turn, run_turns, boot}
use panel_agent.Daemon.Invariants.{
  run_turns-Extends, run_turns-IsChain, run_turns-IsStuck, run_turns-IsConsistent,
}
use panel_agent.Tests.Fixture.{
  Js, Scene, scene, env_of, agent_at, command_named, signed_command, toy_web, toy_crypto, empty_db,
}
use panel_agent.Tests.Gauges.{toy_gauges}

abbrev an_env : Env
an_env = env_of (command_named (txt "x")) PermissionLevel.read 1000

abbrev closed_socket : Socket Scene
closed_socket = record {
  connect = λ _ w. (true, w);
  next = λ w. (Event.closed, w);
  send = λ _ w. (true, w);
  send_pong = λ _ w. (true, w);
  sleep = λ _ w. w;
  timestamp = λ w. ([], w);
}

abbrev pub outside_of : (command : Js) → Outside (env_of command PermissionLevel.read 1000)
outside_of command = record {
  web = toy_web;
  gauges = toy_gauges;
  stream = record { send_system = λ _ w. (true, w); send_containers = λ _ w. (true, w) };
  socket = closed_socket;
  decode_base64 = λ t. some t;
  encode_rows = λ _. [];
  format_uuid = λ t. t;
  parse_signed = λ _. none;
  arch = [];
  io_error = [];
}

abbrev outside : Outside an_env
outside = outside_of (command_named (txt "x"))

abbrev post_cmd : Request
post_cmd = record {
  method = Method.post;
  path = txt "/cmd";
  authorization = some (txt "Bearer t");
  body = some signed_command;
  upgrades = false;
  turns = 0;
}

abbrev turns_taken : List TaskTurn
turns_taken = TaskTurn.http post_cmd ∷ TaskTurn.heartbeat_tick ∷ TaskTurn.divergence_tick ∷ []

run_turns-Extends_example :
    Extends (agent_at 1000).db (run_turns an_env outside turns_taken (agent_at 1000)).db
run_turns-Extends_example = run_turns-Extends an_env outside turns_taken (agent_at 1000)

run_turns-IsConsistent_example :
    IsConsistent
      (run_turns an_env outside turns_taken (boot an_env outside 7 empty_db (scene 1000))).app
run_turns-IsConsistent_example =
    run_turns-IsConsistent an_env outside 7 empty_db (scene 1000) turns_taken

abbrev stuck : Agent Scene
stuck = record (agent_at 1000) { app = set_lockdown LockdownReason.nftables_failure (initial 7) }

run_turns-IsStuck_example :
    IsStuck (run_turns an_env outside turns_taken stuck).app
    × (execute_command an_env none signed_command (run_turns an_env outside turns_taken stuck)
        ≡ (err AgentError.lockdown, run_turns an_env outside turns_taken stuck))
unfolding set_lockdown
run_turns-IsStuck_example =
    run_turns-IsStuck an_env outside turns_taken stuck none signed_command (refl, tt)

-- A row is added by the command.
run_turns-IsChain_example :
    IsChain toy_crypto (run_turns an_env outside turns_taken (agent_at 1000)).db.audit_log
unfolding run_turns run_turn handle_request route_of serve execute_command run_verified_command
    verify_bearer verify_command check_fresh check_and_consume_nonce open_envelope is_heartbeat_ack
    purge seen purge_db add_nonce is_stale skew_of append chain_head make_row initial is_locked_down
    heartbeat_watchdog check_cmd_rate check_once refuse_unverified unknown_entry record_result
    executed_entry command_dispatch dispatch kind_of find_kind command_type audit_result_of
    heartbeat_turn txt text_eq strip_prefix latest result_check as_str has_id
run_turns-IsChain_example = run_turns-IsChain an_env outside turns_taken (agent_at 1000) tt (tt, tt)

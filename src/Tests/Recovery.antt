-- ===== src/Tests/Recovery.antt =====
-- An example for the end of a lockdown.
use panel_agent.Common.{◌≡◌, refl, Option, Text, none, [], ◌∷◌, txt, arith, text_eq, inl}
use panel_agent.Runtime.{
  Env, Agent, PermissionLevel, CommandPayload, SignedCommand, AgentError, err,
}
use panel_agent.State.{LockdownReason, initial, set_lockdown, heartbeat_watchdog}
use panel_agent.Auth.{
  verify_command, open_envelope, check_and_consume_nonce, purge_db, add_nonce, check_fresh,
  is_heartbeat_ack, seen, purge,
}
use panel_agent.Auth.Completeness.{IsAcceptable}
use panel_agent.Handlers.System.{execute_command}
use panel_agent.Daemon.Turns.{Outside, run_turn, heartbeat_turn}
use panel_agent.Daemon.Recovery.{lost, back, run_turn_recovers}
use panel_agent.Tests.Daemon.{outside_of}
use panel_agent.Tests.Fixture.{Js, Scene, env_of, agent_at, command_named, signed_command}

abbrev ack_env : Env
ack_env = env_of (command_named (txt "agent.heartbeat_ack")) PermissionLevel.read 1000

abbrev late : Agent Scene
late = record (agent_at 1000) { app = initial 7 }

abbrev outside : Outside ack_env
outside = outside_of (command_named (txt "agent.heartbeat_ack"))

abbrev ack_payload : CommandPayload Js
ack_payload = record {
  nonce = b'p' ∷ [];
  timestamp = 1000;
  agent_id = b'a' ∷ [];
  user_id = b'u' ∷ [];
  organization_id = none;
  permission = PermissionLevel.read;
  command = command_named (txt "agent.heartbeat_ack");
}

ack-IsAcceptable : IsAcceptable ack_env signed_command (lost ack_env outside late) ack_payload
unfolding initial set_lockdown is_heartbeat_ack check_fresh seen purge txt text_eq run_turn
    heartbeat_turn
ack-IsAcceptable = (
  record {
    bytes = signed_command.payload;
    signature = signed_command.signature;
    decoded = refl;
    decoded_signature = refl;
    usable_key = refl;
    length_64 = refl;
    verified = refl;
    parsed = refl;
    addressed = refl;
  },
  inl refl,
  (refl, refl, refl),
)

run_turn_recovers_example :
    ((lost ack_env outside late).app ≡ set_lockdown LockdownReason.heartbeat late.app)
    × ((authorization : Option Text) (command : SignedCommand)
        → execute_command ack_env authorization command (lost ack_env outside late)
          ≡ (err AgentError.lockdown, lost ack_env outside late))
    × ((back ack_env outside signed_command late).app ≡ record late.app { last_heartbeat = 1000 })
unfolding initial set_lockdown run_turn heartbeat_turn heartbeat_watchdog is_heartbeat_ack
    verify_command open_envelope check_fresh check_and_consume_nonce seen purge purge_db add_nonce
    txt text_eq
run_turn_recovers_example =
    run_turn_recovers ack_env outside signed_command late ack_payload refl refl (omega arith)
      ack-IsAcceptable refl

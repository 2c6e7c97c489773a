-- ===== src/Tests/WsClient.antt =====
-- Examples for the connection to the dashboard.
use panel_agent.Common.{
  ◌≡◌, refl, false, Option, none, some, [], ◌∷◌, Text, txt, text_eq, if◌then◌else◌, ◌+◌,
}
use panel_agent.State.{LockdownReason, initial, set_lockdown}
use panel_agent.Runtime.{Json, Env, Agent, PermissionLevel, SignedCommand, ok}
use panel_agent.WsClient.{Event, Socket, connect_loop}
use panel_agent.WsClient.Backoff.{connect_loop_failing, failing_attempts}
use panel_agent.Tests.Gauges.{toy_gauges}
use panel_agent.Tests.Fixture.{
  Scene, scene_machine, toy_crypto, toy_config, agent_at, signed_command, scene,
}

-- A JSON in which a value is its text: "m" is a command message, all else names an acknowledgement.
abbrev text_get : Text → Text → Option Text
text_get key v =
    if text_eq key (txt "type")
    then (if text_eq v (b'm' ∷ []) then some (txt "command") else some (txt "agent.heartbeat_ack"))
    else some v

abbrev text_json : Json
text_json = record {
  Value = Text;
  get = text_get;
  as_str = λ t. some t;
  as_u64 = λ _. none;
  as_bool = λ _. none;
  as_f64 = λ _. none;
  as_array = λ _. none;
  from_slice = λ t. some t;
}

abbrev ws_env : Env
ws_env = record {
  crypto = toy_crypto;
  json = text_json;
  machine = scene_machine;
  config = toy_config;
  parse_payload = λ bytes. some (record {
    nonce = bytes;
    timestamp = 1000;
    agent_id = b'a' ∷ [];
    user_id = b'u' ∷ [];
    organization_id = none;
    permission = PermissionLevel.read;
    command = bytes;
  });
  parse_cert = λ _. none;
  encode_cert = λ _. none;
  with_password = λ _ _. none;
}

abbrev parse_any : Text → Option SignedCommand
parse_any _ = some signed_command

abbrev locked : Agent Scene
locked = record (agent_at 1000) { app = set_lockdown LockdownReason.pg_unreachable (initial 7) }

-- A socket that never connects; a sleep moves the time.
abbrev dead_socket : Socket Scene
dead_socket = record {
  connect = λ _ w. (false, w);
  next = λ w. (Event.closed, w);
  send = λ _ w. (false, w);
  send_pong = λ _ w. (false, w);
  sleep = λ n w. record w { now = w.now + n };
  timestamp = λ w. ([], w);
}

connect_loop_failing_example :
    (connect_loop ws_env
      (λ t. t)
      []
      dead_socket
      toy_gauges
      parse_any
      7
      3
      (txt "ws://d")
      5
      (agent_at 1000))
    ≡ (ok 300, record (agent_at 1000) { world = scene 1615 })
unfolding failing_attempts
connect_loop_failing_example =
    connect_loop_failing ws_env (λ t. t) [] dead_socket toy_gauges parse_any 7 0 3 (txt "ws://d")
      (agent_at 1000) (λ _. refl)

-- ===== src/WsClient/Message.antt =====
-- `handle_message` and the frames.
use panel_agent.Common.{
  ℕ, Bool, false, not, ◌&&◌, Option, none, some, [], Text, txt, text_eq, if◌then◌else◌,
}
use panel_agent.Runtime.{
  Env, SignedCommand, AgentError, to_string, Answer, M, Outcome, ok, err, panicked, ◌>>=◌, pure,
  ask, gets_app, branch, catch, from_outcome,
}
use panel_agent.State.{is_locked_down}
use panel_agent.Auth.{get_str}
use panel_agent.Handlers.System.{run_verified_command}

-- The objects that are sent.
pub data Frame : Type 0 where
  heartbeat : (agent_id version arch timestamp status nonce : Text) → Frame
  metrics container_metrics : (data_text : Text) → Frame
  command_ok : (id : Text) (body : Answer) → Frame
  command_failed : (id error : Text) → Frame
  pong : Frame

-- The arm of `select!` that is taken.
pub data Event : Type 0 where
  hb_tick metrics_tick container_tick : Event
  text_message ping_message : Text → Event
  closed broken other_message : Event

-- tokio-tungstenite, the timers, and the clock as text.
pub record Socket (W : Type 0) : Type 0 where
  pub connect : Text → W → Bool × W
  pub next : W → Event × W
  pub send : Frame → W → Bool × W
  pub send_pong : Text → W → Bool × W
  pub sleep : ℕ → W → W
  pub timestamp : W → Text × W

abbrev or_empty : Option Text → Text
or_empty none = []
or_empty (some t) = t

-- `.map(|t| t == "agent.heartbeat_ack").unwrap_or(false)`
unfoldable pub is_ack_peek : Option Text → Bool
unfolding txt text_eq
is_ack_peek none = false
is_ack_peek (some t) = text_eq t (txt "agent.heartbeat_ack")

-- The architecture as the releases name it.
unfoldable pub arch_name : Text → Text
unfolding txt text_eq
arch_name arch = if text_eq arch (txt "aarch64") then txt "arm64" else arch

module _ (e : Env) where
  open e use {crypto, json, machine, config}
  open json use {Value, get, as_str, from_slice}
  open machine use {World, new_uuid}

  abbrev pub req_id : Value → Text
  req_id msg = or_empty (get_str json (txt "id") msg)

  -- The type that stands in the object under `command`.
  abbrev peek_value : Option Value → Option Text
  peek_value none = none
  peek_value (some val) = elim (get (txt "command") val) [
    | none ↦ none
    | some command ↦ get_str json (txt "type") command
  ]

  unfoldable pub peek_inner_command_type : SignedCommand → Option Text
  unfolding txt
  peek_inner_command_type signed = elim (crypto.decode_base64url signed.payload) [
    | none ↦ none
    | some bytes ↦ peek_value (from_slice bytes)
  ]

  -- The answer to a command that was run. No `catch` gives `panicked`.
  unfoldable pub respond : Text → Outcome AgentError Answer → M World AgentError (Option Frame)
  unfolding to_string
  respond id (ok body) = pure (some (Frame.command_ok id body))
  respond id (err x) = pure (some (Frame.command_failed id (to_string x)))
  respond id panicked = from_outcome panicked

  abbrev pub run_and_respond : Text → SignedCommand → M World AgentError (Option Frame)
  run_and_respond id signed = do result ← catch (run_verified_command e signed); respond id result

  -- The gate of the lockdown, and the command.
  unfoldable pub gate_command : Text → SignedCommand → M World AgentError (Option Frame)
  unfolding peek_inner_command_type is_ack_peek txt
  gate_command id signed = do
    locked ← gets_app is_locked_down
    branch (not (is_ack_peek (peek_inner_command_type signed)) && locked)
        (pure (some (Frame.command_failed id (txt "agent in lockdown"))))
        (run_and_respond id signed)

  module _ (parse_signed : Value → Option SignedCommand) where
    unfoldable pub on_command : Value → M World AgentError (Option Frame)
    unfolding gate_command txt
    on_command msg = elim (get (txt "payload") msg) [
      | none ↦ pure none
      | some payload ↦ elim (parse_signed payload) [
        | none ↦ pure none
        | some signed ↦ gate_command (req_id msg) signed
      ]
    ]

    abbrev pub on_type : Option Text → Value → M World AgentError (Option Frame)
    on_type none msg = pure none
    on_type (some t) msg =
        branch (text_eq t (txt "command")) (on_command msg)
          (pure (if text_eq t (txt "ping") then some Frame.pong else none))

    unfoldable pub handle_message : Text → M World AgentError (Option Frame)
    unfolding on_command txt text_eq
    handle_message text = elim (from_slice text) [
      | none ↦ pure none
      | some msg ↦ on_type (get_str json (txt "type") msg) msg
    ]

  -- The heartbeat object.
  unfoldable pub heartbeat_payload : (Text → Text) → Socket World → Text → M World AgentError Frame
  unfolding txt arch_name
  heartbeat_payload format_uuid socket arch = do
    timestamp ← ask socket.timestamp
    locked ← gets_app is_locked_down
    nonce ← ask new_uuid
    pure (
        Frame.heartbeat (format_uuid config.agent_id) config.version (arch_name arch) timestamp
          (if locked then txt "lockdown" else txt "online") nonce)

-- ===== src/WsClient/Gate.antt =====
-- Which commands come through the socket.
use panel_agent.Common.{◌≡◌, ◌⊎◌, true, Option, some, Text, txt}
use panel_agent.Runtime.{
  Env, SignedCommand, CommandPayload, VerifiedCommand, AgentError, Agent, Outcome, ok, err,
}
use panel_agent.Auth.{VerifyError, verify_command, is_heartbeat_ack}
use panel_agent.Handlers.System.Execution.{after_rate}
use panel_agent.WsClient.{Frame, run_and_respond}

-- serde's two readings of the same bytes agree: if they parse as a payload, and read as a JSON value
-- that has a `command`, this is the command of the payload.
pub record Agrees (e : Env) : Type 0 where
  pub command_of :
      (bytes : Text) (p : CommandPayload e.json.Value) (v c : e.json.Value)
      → e.parse_payload bytes ≡ some p
      → e.json.from_slice bytes ≡ some v
      → e.json.get (txt "command") v ≡ some c
      → p.command ≡ c

module _ (e : Env) where
  open e use {crypto, json, machine, config, parse_payload}
  open json use {Value, from_slice, get}

  -- The run of a command by the socket: how it was verified, if it was.
  abbrev pub IsAckRun :
      Text
      → SignedCommand
      → Agent machine.World
      → Outcome AgentError (Option Frame) × Agent machine.World
      → Type 0
  IsAckRun id signed s p =
      (p ≡ run_and_respond e id signed s)
      × (((x : VerifyError) × ((verify_command e signed (after_rate e s)).0 ≡ err x))
          ⊎ ((v : VerifiedCommand Value) × ((verify_command e signed (after_rate e s)).0 ≡ ok v)
              × (is_heartbeat_ack json v.command ≡ true)))

  module _ (parse_signed : Value → Option SignedCommand) where
    -- What a message does in lockdown: nothing to the state, or the run of a command that is refused
    -- or is an acknowledgement.
    abbrev pub IsGated :
        Agent machine.World → Outcome AgentError (Option Frame) × Agent machine.World → Type 0
    IsGated s p = (p.1 ≡ s) ⊎ ((id : Text) × ((signed : SignedCommand) × IsAckRun id signed s p))

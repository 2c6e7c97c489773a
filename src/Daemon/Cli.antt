-- ===== src/Daemon/Cli.antt =====
-- The subcommands of src/main.rs. The random bytes, base64, the UUID and the standard output are
-- parameters.
use panel_agent.Common.{
  ℕ, ◌+◌, ◌/◌, ◌%◌, Bool, not, Option, none, some, List, [], ◌∷◌, ◌++◌, Text, txt, text_eq, ltb,
  if◌then◌else◌,
}
use panel_agent.Runtime.{Machine, command, M, ◌>>=◌, throw, ask, tell, refuse_if, must_start}

pub data AgentCommand : Type 0 where
  logs : (follow errors : Bool) (since : Option Text) → AgentCommand
  gen_rand : (bytes : ℕ) (encoding : Text) → AgentCommand
  gen_uuid_v7 : AgentCommand

pub data CliError : Type 0 where
  journalctl journalctl_status : CliError
  unknown_encoding : (other : Text) → CliError

pub record Terminal (W : Type 0) : Type 0 where
  pub fill : ℕ → W → Text × W  -- so many random bytes
  pub encode_base64 : Text → Text
  pub now_v7 : W → Text × W
  pub println : Text → W → W

abbrev since_flag : Option Text → List Text
since_flag none = []
since_flag (some s) = (txt "--since=-" ++ s) ∷ []

unfoldable pub logs_args : Bool → Bool → Option Text → List Text
unfolding txt
logs_args follow errors since =
    txt "--unit=lynx-agent"
    ∷ txt "--no-pager"
    ∷ txt "--output=short"
    ∷ (if follow then txt "--follow" else txt "--lines=100")
    ∷ (since_flag since ++ (if errors then txt "--priority=err" ∷ [] else []))

-- `{b:02x}`
abbrev pub hex_digit : ℕ → ℕ
hex_digit n = if ltb n 10 then 48 + n else 87 + n

unfoldable pub to_hex : Text → Text
to_hex [] = []
to_hex (b ∷ bs) = hex_digit (b / 16) ∷ hex_digit (b % 16) ∷ to_hex bs

module _ (m : Machine) (terminal : Terminal m.World) where
  open m use {World}
  open terminal use {fill, encode_base64, now_v7, println}

  unfoldable pub agent_logs : Bool → Bool → Option Text → M World CliError (Unit {0})
  unfolding txt logs_args
  agent_logs follow errors since = do
    (success, _) ←
        must_start m CliError.journalctl
          (command (txt "journalctl") (logs_args follow errors since))
    refuse_if (not success) CliError.journalctl_status

  abbrev printed : Text → M World CliError (Unit {0})
  printed out = tell (println out)

  unfoldable pub agent_gen_rand : ℕ → Text → M World CliError (Unit {0})
  unfolding txt text_eq to_hex
  agent_gen_rand bytes encoding = do
    buf ← ask (fill bytes)
    if text_eq encoding (txt "hex")
        then printed (to_hex buf)
        else if text_eq encoding (txt "base64")
        then printed (encode_base64 buf)
        else throw (CliError.unknown_encoding encoding)

  unfoldable pub agent_gen_uuid_v7 : M World CliError (Unit {0})
  agent_gen_uuid_v7 = do id ← ask now_v7; printed id

  -- The subcommands, that end the process.
  unfoldable pub run_subcommand : AgentCommand → M World CliError (Unit {0})
  unfolding agent_logs agent_gen_rand agent_gen_uuid_v7
  run_subcommand (AgentCommand.logs follow errors since) = agent_logs follow errors since
  run_subcommand (AgentCommand.gen_rand bytes encoding) = agent_gen_rand bytes encoding
  run_subcommand AgentCommand.gen_uuid_v7 = agent_gen_uuid_v7

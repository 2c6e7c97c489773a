-- ===== src/Handlers/System/Execute.antt =====
-- `run_verified_command` and `execute_command` of src/handlers/system.rs, and `heartbeat_handler`
-- of src/main.rs.
use panel_agent.Common.{Bool, not, Option, none, some, [], Text, txt, if◌then◌else◌, strip_prefix}
use panel_agent.Runtime.{
  Env, SignedCommand, VerifiedCommand, AgentError, to_string, M, Outcome, ok, err, panicked, ◌>>=◌,
  ◌>>◌, pure, throw, ask, refuse_if, gets_app, modify_app, state_app, branch, ignore, catch,
  map_err, from_outcome, Answer,
}
use panel_agent.State.{check_cmd_rate, record_rate_rejection, is_locked_down, heartbeat_ack}
use panel_agent.Auth.{VerifyError, verify_message, verify_command, verify_bearer, is_heartbeat_ack}
use panel_agent.Audit.{AuditEntry, AuditResult, AuditError, append}
use panel_agent.Handlers.System.Commands.{command_type, command_dispatch}

unfoldable pub sanitize_error : AgentError → Text
unfolding txt to_string
sanitize_error AgentError.internal = txt "internal error"
sanitize_error AgentError.unauthorized = to_string AgentError.unauthorized
sanitize_error (AgentError.forbidden why) = to_string (AgentError.forbidden why)
sanitize_error (AgentError.bad_request why) = to_string (AgentError.bad_request why)
sanitize_error AgentError.lockdown = to_string AgentError.lockdown

unfoldable pub audit_result_of : Outcome AgentError Answer → AuditResult
audit_result_of (ok _) = AuditResult.success
audit_result_of (err (AgentError.bad_request _)) = AuditResult.rejected
audit_result_of (err AgentError.unauthorized) = AuditResult.rejected
audit_result_of (err (AgentError.forbidden _)) = AuditResult.rejected
audit_result_of (err AgentError.lockdown) = AuditResult.failed
audit_result_of (err AgentError.internal) = AuditResult.failed
audit_result_of panicked = AuditResult.failed

abbrev pub error_of : Outcome AgentError Answer → Option Text
unfolding sanitize_error
error_of (err x) = some (sanitize_error x)
error_of (ok _) = none
error_of panicked = none

-- The 200 answer of `heartbeat_handler`; the timestamp and the nonce of its body are left out.
pub record HeartbeatReply : Type 0 where
  pub agent_id : Text
  pub version : Text
  pub status : Text

module _ (e : Env) where
  open e use {json, machine, config}
  open json use {Value}
  open machine use {World, clock, instant}

  -- The entry of a command that was not dispatched.
  unfoldable pub unknown_entry : AuditResult → Option Text → AuditEntry
  unfolding txt
  unknown_entry result error = record {
    agent_id = config.agent_id;
    organization_id = none;
    user_id = none;
    command_type = txt "unknown";
    result = result;
    error = error;
  }

  -- The entry of a command that was dispatched.
  unfoldable pub executed_entry : VerifiedCommand Value → Outcome AgentError Answer → AuditEntry
  unfolding audit_result_of command_type error_of
  executed_entry verified result = record {
    agent_id = config.agent_id;
    organization_id = verified.organization_id;
    user_id = some verified.user_id;
    command_type = command_type e verified;
    result = audit_result_of result;
    error = error_of result;
  }

  unfoldable pub refuse_rate : M World AgentError Answer
  unfolding txt unknown_entry
  refuse_rate = do
    now ← ask clock
    _ ← state_app (record_rate_rejection now)
    ignore {D = AgentError} (append e (unknown_entry AuditResult.rejected_rate_limit none))
    throw (AgentError.bad_request (txt "rate limit exceeded"))

  unfoldable pub refuse_unverified : VerifyError → M World AgentError Answer
  unfolding verify_message unknown_entry
  refuse_unverified x = do
    ignore {D = AgentError}
        (append e (unknown_entry AuditResult.rejected (some (verify_message x))))
    throw AgentError.unauthorized

  -- The entry of the result, and the result. No `catch` gives `panicked`.
  unfoldable pub record_result :
      VerifiedCommand Value → Outcome AgentError Answer → M World AgentError Answer
  unfolding executed_entry
  record_result verified (ok a) = do
    map_err (λ (_ : AuditError). AgentError.internal) (append e (executed_entry verified (ok a)))
    pure a
  record_result verified (err x) = do
    map_err (λ (_ : AuditError). AgentError.internal) (append e (executed_entry verified (err x)))
    throw x
  record_result verified panicked = from_outcome panicked

  abbrev pub execute_verified : VerifiedCommand Value → M World AgentError Answer
  execute_verified verified = do
    result ← catch (command_dispatch e verified)
    record_result verified result

  abbrev pub on_verdict : Outcome VerifyError (VerifiedCommand Value) → M World AgentError Answer
  on_verdict (ok v) = execute_verified v
  on_verdict (err x) = refuse_unverified x
  on_verdict panicked = from_outcome panicked

  abbrev pub verify_and_execute : SignedCommand → M World AgentError Answer
  verify_and_execute signed = do verdict ← catch (verify_command e signed); on_verdict verdict

  unfoldable pub run_verified_command : SignedCommand → M World AgentError Answer
  run_verified_command signed = do
    now ← ask clock
    allowed ← state_app (check_cmd_rate now)
    branch allowed (verify_and_execute signed) refuse_rate

  abbrev pub token_of : Option Text → Text
  token_of none = []
  token_of (some value) = elim (strip_prefix (txt "Bearer ") value) [ none ↦ [] | some t ↦ t ]

  -- `authorization` is the header, when there is one and it is visible ASCII.
  unfoldable pub execute_command : Option Text → SignedCommand → M World AgentError Answer
  unfolding run_verified_command verify_bearer
  execute_command authorization signed = do
    locked ← gets_app is_locked_down
    refuse_if locked AgentError.lockdown
    refuse_if (not (verify_bearer (token_of authorization) config.internal_token))
        AgentError.unauthorized
    run_verified_command signed

  abbrev pub status_text : Bool → Text
  unfolding txt
  status_text locked = if locked then txt "lockdown" else txt "online"

  -- Errors are status codes here: 401 and 400.
  unfoldable pub heartbeat_handler : SignedCommand → M World AgentError HeartbeatReply
  unfolding txt
  heartbeat_handler signed = do
    cmd ← map_err (λ (_ : VerifyError). AgentError.unauthorized) (verify_command e signed)
    refuse_if (not (is_heartbeat_ack json cmd.command)) (AgentError.bad_request [])
    now ← ask instant
    is_lockdown ← gets_app is_locked_down
    modify_app (heartbeat_ack now)
    pure (record {
      agent_id = config.agent_id;
      version = config.version;
      status = status_text is_lockdown;
    })

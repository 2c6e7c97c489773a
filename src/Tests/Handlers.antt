-- ===== src/Tests/Handlers.antt =====
-- Examples for the handlers.
use panel_agent.Common.{
  ◌⊎◌, ◌≡◌, ◌≢◌, ◌≤◌, refl, true, some, [], ◌∷◌, ◌++◌, Text, txt, text_eq, length, all, arith, All,
}
use panel_agent.Runtime.{
  Env, Agent, AgentError, VerifiedCommand, PermissionLevel, err, answer_ok, result_check, latest,
}
use panel_agent.State.{AppState, LockdownReason, initial, set_lockdown, check_cmd_rate}
use panel_agent.Auth.{
  VerifyError, verify_command, open_envelope, check_fresh, check_and_consume_nonce,
  is_heartbeat_ack, is_stale, skew_of, seen, purge, purge_db, add_nonce,
}
use panel_agent.Audit.{append, chain_head, as_str, has_id}
use panel_agent.Nftables.{current_checksum, restore, check_once, is_chain_diverged}
use panel_agent.Nftables.Restore.{check_once_locks}
use panel_agent.Podman.Subid.{IsFreeStart, next_subid_start_above}
use panel_agent.Handlers.Params.{is_alphanumeric}
use panel_agent.Handlers.Nginx.{validate_domain_for_path, has_dotdot, has_byte}
use panel_agent.Handlers.Nginx.Domain.{validate_domain_for_path-safe}
use panel_agent.Handlers.Wireguard.{
  interface_of, iface_suffix, is_boundary, slice_panics, remove_dashes,
}
use panel_agent.Handlers.Wireguard.Suffix.{interface_of-ok}
use panel_agent.Handlers.System.Heartbeat.{IsAcknowledged, heartbeat_handler_guard}
use panel_agent.Handlers.System.{
  heartbeat_handler, kind_of, find_kind, command_type, command_dispatch, dispatch,
  run_verified_command, record_result, executed_entry, audit_result_of,
}
use panel_agent.Handlers.System.Permissions.{requires, is_forbidden, command_dispatch_gate}
use panel_agent.Handlers.System.Lockdown.{command_dispatch_keeps_lockdown}
use panel_agent.Handlers.System.Execution.{IsExecuted, run_verified_command-ok}
use panel_agent.Handlers.System.Rejection.{
  IsRejected, run_verified_command-err, run_verified_command_over_rate,
}
use panel_agent.Runtime.Frame.{kept}
use panel_agent.Tests.Fixture.{
  Js, Scene, env_of, agent_at, scene, scene_machine, command_named, signed_command, verified_with,
  empty_db,
}

abbrev ack_env : Env
ack_env = env_of (command_named (txt "agent.heartbeat_ack")) PermissionLevel.read 1000

abbrev deploy_env : Env
deploy_env = env_of (command_named (txt "nginx.deploy")) PermissionLevel.read 1000

abbrev deploy_command : VerifiedCommand Js
deploy_command = verified_with (command_named (txt "nginx.deploy")) PermissionLevel.read

run_verified_command-ok_example :
    IsExecuted ack_env signed_command
      (agent_at 1000)
      (run_verified_command ack_env signed_command (agent_at 1000)).1
      answer_ok
unfolding run_verified_command record_result executed_entry audit_result_of append has_id chain_head
    latest as_str result_check command_dispatch kind_of find_kind command_type dispatch
    check_cmd_rate verify_command open_envelope check_fresh check_and_consume_nonce is_heartbeat_ack
    is_stale skew_of purge_db add_nonce initial txt text_eq seen purge
run_verified_command-ok_example =
    run_verified_command-ok ack_env signed_command (agent_at 1000)
      (run_verified_command ack_env signed_command (agent_at 1000)).1 refl

run_verified_command-err_example :
    IsRejected deploy_env signed_command (agent_at 1031) (VerifyError.stale 31)
unfolding check_cmd_rate verify_command open_envelope check_fresh check_and_consume_nonce
    is_heartbeat_ack is_stale skew_of purge_db add_nonce initial txt text_eq seen purge
run_verified_command-err_example =
    run_verified_command-err deploy_env signed_command (agent_at 1031) refl refl

-- A hundred commands have come in the minute.
abbrev busy : Agent Scene
busy = record (agent_at 1000) {
  app = record (initial 7) { window_start = 990; window_count = 100 };
}

run_verified_command_over_rate_example :
    ((run_verified_command deploy_env signed_command busy).0
      ≡ err (AgentError.bad_request (txt "rate limit exceeded")))
    × ((run_verified_command deploy_env signed_command busy).1.db ≡ empty_db)
unfolding check_cmd_rate initial
run_verified_command_over_rate_example =
    run_verified_command_over_rate deploy_env signed_command busy refl

abbrev locked : Agent Scene
locked = record (agent_at 1000) { app = set_lockdown LockdownReason.pg_unreachable (initial 7) }

command_dispatch_gate_example :
    (is_forbidden (command_dispatch deploy_env deploy_command (agent_at 1000)).0 ≡ true)
    × ((command_dispatch deploy_env deploy_command (agent_at 1000)).1 ≡ agent_at 1000)
unfolding requires kind_of find_kind command_type txt text_eq
command_dispatch_gate_example = command_dispatch_gate deploy_env deploy_command (agent_at 1000) refl

command_dispatch_keeps_lockdown_example :
    kept (command_dispatch deploy_env deploy_command locked).1 ≡ kept locked
unfolding kind_of find_kind command_type txt text_eq
command_dispatch_keeps_lockdown_example =
    command_dispatch_keeps_lockdown deploy_env deploy_command locked (λ h. absurd (ground arith))

-- Nothing has been applied, but there is a baseline.
abbrev baselined : Agent Scene
baselined = record (agent_at 1000) {
  app = record (initial 7) { nft_checksum = some (txt "0123456789abcdef") };
}

check_once_locks_example :
    ((check_once deploy_env baselined).1.app.lockdown ≡ true)
    × ((check_once deploy_env baselined).1.app.lockdown_reason
        ≡ some LockdownReason.nftables_failure)
unfolding initial current_checksum restore is_chain_diverged txt text_eq
check_once_locks_example =
    check_once_locks deploy_env baselined (txt "0123456789abcdef") _ refl refl refl refl refl refl

validate_domain_for_path-safe_example :
    (1 ≤ length (txt "a.b"))
    × (length (txt "a.b") ≤ 253)
    × All (λ c. c ≢ b'/') (txt "a.b")
    × ((a b : Text) → txt "a.b" ≢ a ++ b'.' ∷ b'.' ∷ b)
unfolding validate_domain_for_path has_dotdot has_byte txt
validate_domain_for_path-safe_example = validate_domain_for_path-safe (txt "a.b") refl

interface_of-ok_example :
    (suffix : Text) × (txt "wg-lynx-dp-ab12" ≡ txt "wg-lynx-dp-" ++ suffix)
    × (length suffix ≤ 8)
    × (all is_alphanumeric suffix ≡ true)
    × ((interface_of (txt "ab-12") (agent_at 1000)).1 ≡ agent_at 1000)
unfolding interface_of iface_suffix remove_dashes is_boundary slice_panics txt
interface_of-ok_example = interface_of-ok (txt "ab-12") (agent_at 1000) refl

abbrev opened : AppState
opened = record (initial 1000) { nft_global_body = b'x' ∷ [] }

abbrev refusing : Agent Scene
refusing = record (agent_at 1000) { world = record (scene 1000) { refuses = true } }

abbrev write_command : VerifiedCommand Js
write_command = verified_with (command_named (txt "nftables.accept")) PermissionLevel.write

next_subid_start_above_example : IsFreeStart scene_machine (agent_at 1000)
next_subid_start_above_example = next_subid_start_above scene_machine (agent_at 1000)

heartbeat_handler_guard_example :
    ((heartbeat_handler ack_env signed_command locked).1.app ≡ locked.app)
    ⊎ IsAcknowledged ack_env signed_command locked
heartbeat_handler_guard_example = heartbeat_handler_guard ack_env signed_command locked

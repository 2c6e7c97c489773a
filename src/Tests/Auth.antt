-- ===== src/Tests/Auth.antt =====
-- Examples for the verification of commands.
use panel_agent.Common.{
  some, ◌≡◌, ◌↔◌, ◌⊎◌, ◌≤◌, ◌+◌, ◌^◌, refl, false, none, [], ◌∷◌, txt, text_eq, arith,
}
use panel_agent.Runtime.{
  err, AgentCert, SignedCert, Env, Db, Agent, VerifiedCommand, CommandPayload, PermissionLevel, ok,
}
use panel_agent.Auth.{
  verify_command, open_envelope, check_fresh, check_and_consume_nonce, is_heartbeat_ack, is_stale,
  skew_of, seen, purge, purge_db, add_nonce,
}
use panel_agent.Auth.Freshness.{fresh_iff}
use panel_agent.Auth.Soundness.{IsAccepted, verify_command_sound}
use panel_agent.Auth.Completeness.{IsAcceptable, verified_of, verify_command_iff}
use panel_agent.Auth.Replay.{Attempt, attempt, attempts, replay_refused, heartbeat_ack_replayed}
use panel_agent.Cert.{CertError, verify_cert, is_expired}
use panel_agent.Cert.Validity.{IsValid, verify_cert_sound}
use panel_agent.State.{initial}
use panel_agent.Tests.Fixture.{
  env_of, agent_at, scene, command_named, signed_command, verified_with, empty_db, Scene, Js,
}

abbrev deploy_env : Env
deploy_env = env_of (command_named (txt "nginx.deploy")) PermissionLevel.read 1000

abbrev ack_env : Env
ack_env = env_of (command_named (txt "agent.heartbeat_ack")) PermissionLevel.read 1000

abbrev at_1000 : Agent Scene
at_1000 = agent_at 1000

abbrev at_1031 : Agent Scene
at_1031 = agent_at 1031

abbrev deploy_command : VerifiedCommand Js
deploy_command = verified_with (command_named (txt "nginx.deploy")) PermissionLevel.read

fresh_iff_example :
    (is_stale (skew_of 1000 970) ≡ false)
    ↔ ((970 ≤ 1000 + 30) × (1000 ≤ 970 + 30) ⊎ (970 ≡ 2 ^ 63 + 1000))
fresh_iff_example = fresh_iff 1000 970 (omega arith) (omega arith) (omega arith)

-- The command passes at its own time.
accepted_in_time : (verify_command deploy_env signed_command at_1000).0 ≡ ok deploy_command
unfolding verify_command open_envelope check_fresh check_and_consume_nonce is_heartbeat_ack is_stale
    skew_of purge_db add_nonce initial txt text_eq seen purge
accepted_in_time = refl

verify_command_sound_example :
    IsAccepted deploy_env signed_command at_1000
      (verify_command deploy_env signed_command at_1000).1
      deploy_command
unfolding verify_command open_envelope check_fresh check_and_consume_nonce is_heartbeat_ack is_stale
    skew_of purge_db add_nonce initial txt text_eq seen purge
verify_command_sound_example =
    verify_command_sound deploy_env signed_command at_1000
      (verify_command deploy_env signed_command at_1000).1 refl

verify_command_iff_example :
    ((verify_command deploy_env signed_command at_1000).0 ≡ ok deploy_command) ↔ (
      (p : CommandPayload Js) × (IsAcceptable deploy_env signed_command at_1000 p
        × (deploy_command ≡ verified_of deploy_env p)))
verify_command_iff_example = verify_command_iff deploy_env signed_command at_1000 deploy_command

abbrev first_try : Attempt
first_try = record { nonce = b'n' ∷ []; purge_at = 1000; insert_at = 1001 }

abbrev other_try : Attempt
other_try = record { nonce = b'm' ∷ []; purge_at = 1100; insert_at = 1100 }

abbrev second_try : Attempt
second_try = record { nonce = b'n' ∷ []; purge_at = 1301; insert_at = 1301 }

replay_refused_example :
    (attempt second_try (attempts (other_try ∷ []) (attempt first_try empty_db).1)).0 ≡ false
unfolding attempt seen purge_db purge add_nonce text_eq
replay_refused_example =
    replay_refused first_try second_try (other_try ∷ []) empty_db refl refl (omega arith, tt)
      (omega arith)

-- The acknowledgement was consumed at 600, and is accepted again at 1000.
abbrev used_db : Db
used_db = record empty_db { used_nonces = record { nonce = b'p' ∷ []; created_at = 600 } ∷ [] }

abbrev replayed : Agent Scene
replayed = record (agent_at 1000) { db = used_db }

heartbeat_ack_replayed_example :
    (verify_command ack_env signed_command replayed).0
    ≡ ok (verified_with (command_named (txt "agent.heartbeat_ack")) PermissionLevel.read)
unfolding open_envelope is_heartbeat_ack txt text_eq
heartbeat_ack_replayed_example =
    heartbeat_ack_replayed ack_env signed_command
      (record {
        nonce = b'p' ∷ [];
        timestamp = 1000;
        agent_id = b'a' ∷ [];
        user_id = b'u' ∷ [];
        organization_id = none;
        permission = PermissionLevel.read;
        command = command_named (txt "agent.heartbeat_ack");
      })
      replayed (scene 1000) (scene 1000) (scene 1000) (scene 1000) 1000 1000 refl refl refl refl
      refl refl ((λ _. omega arith), tt)

abbrev own_cert : AgentCert
own_cert = record { agent_id = b'a' ∷ []; issued_at = 900; expires_at = 2000 }

abbrev cert_env : Env
cert_env = record deploy_env { parse_cert = λ _. some own_cert }

abbrev signed_cert : SignedCert
signed_cert = record { payload = signed_command.payload; signature = signed_command.signature }

verify_cert_sound_example :
    IsValid cert_env signed_cert (b'k' ∷ []) (b'a' ∷ []) 1000
    × ((verify_cert cert_env signed_cert (b'k' ∷ []) (b'a' ∷ []) at_1000).1.app ≡ at_1000.app)
    × ((verify_cert cert_env signed_cert (b'k' ∷ []) (b'a' ∷ []) at_1000).1.db ≡ at_1000.db)
unfolding verify_cert is_expired text_eq
verify_cert_sound_example =
    verify_cert_sound cert_env signed_cert (b'k' ∷ []) (b'a' ∷ []) at_1000 refl

-- A certificate that expired a second ago is refused.
expired_refused :
    (verify_cert cert_env signed_cert (b'k' ∷ []) (b'a' ∷ []) (agent_at 2001)).0
    ≡ err CertError.expired
unfolding verify_cert is_expired text_eq
expired_refused = refl

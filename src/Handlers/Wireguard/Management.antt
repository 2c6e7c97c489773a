-- ===== src/Handlers/Wireguard/Management.antt =====
-- The peers of the management interface `wg-lynx-dash`.
use panel_agent.Common.{
  not, ◌||◌, List, [], ◌∷◌, ◌++◌, Text, txt, lines, trim, length, ltb, ◌==◌, if◌then◌else◌, ◌&&◌,
}
use panel_agent.Runtime.{
  Env, VerifiedCommand, AgentError, M, ◌>>=◌, ◌>>◌, pure, panic_unless, must_start, must_run,
  command, command_with, Answer, Field, answer_ok,
}
use panel_agent.Handlers.Params.{require_str, refuse_read}
use panel_agent.Handlers.Wireguard.Names.{slice_panics}

-- The trimmed lines that are not empty.
unfoldable pub peers_of : List Text → List Text
peers_of [] = []
peers_of (l ∷ ls) = if length (trim l) == 0 then peers_of ls else trim l ∷ peers_of ls

module _ (e : Env) where
  open e use {json, machine}
  open json use {Value}
  open machine use {World}

  -- Logging `&pubkey[..16]`, if the level is on, panics on a key of less than 16 bytes, or one cut
  -- inside a character.
  unfoldable pub log_key : Text → M World AgentError (Unit {0})
  log_key pubkey =
      panic_unless (not (machine.logs_info && (ltb (length pubkey) 16 || slice_panics 16 pubkey)))

  unfoldable pub handle_wg_management_add_peer : VerifiedCommand Value → M World AgentError Answer
  unfolding log_key txt
  handle_wg_management_add_peer cmd = do
    refuse_read cmd.permission (txt "wg.management.add_peer requires write permission")
    pubkey ← require_str json cmd.command (txt "pubkey")
    allowed_ip ← require_str json cmd.command (txt "allowed_ip")
    psk ← require_str json cmd.command (txt "psk")
    must_run machine AgentError.internal (
        command_with (txt "wg")
          (txt "set"
            ∷ txt "wg-lynx-dash"
            ∷ txt "peer"
            ∷ pubkey
            ∷ txt "preshared-key"
            ∷ txt "/dev/stdin"
            ∷ txt "allowed-ips"
            ∷ (allowed_ip ++ txt "/32")
            ∷ [])
          psk)
    log_key pubkey
    pure answer_ok

  unfoldable pub handle_wg_management_remove_peer :
      VerifiedCommand Value → M World AgentError Answer
  unfolding log_key txt
  handle_wg_management_remove_peer cmd = do
    refuse_read cmd.permission (txt "wg.management.remove_peer requires write permission")
    pubkey ← require_str json cmd.command (txt "pubkey")
    must_run machine AgentError.internal (
        command (txt "wg")
          (txt "set" ∷ txt "wg-lynx-dash" ∷ txt "peer" ∷ pubkey ∷ txt "remove" ∷ []))
    log_key pubkey
    pure answer_ok

  -- If the interface is not there yet, the list is empty.
  unfoldable pub handle_wg_management_list_peers : VerifiedCommand Value → M World AgentError Answer
  unfolding peers_of txt
  handle_wg_management_list_peers cmd = do
    refuse_read cmd.permission (txt "wg.management.list_peers requires write permission")
    (success, stdout) ←
        must_start machine AgentError.internal
          (command (txt "wg") (txt "show" ∷ txt "wg-lynx-dash" ∷ txt "peers" ∷ []))
    pure (record {
      fields = (txt "peers", Field.texts (if success then peers_of (lines stdout) else [])) ∷ [];
    })

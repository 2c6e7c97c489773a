-- ===== src/Handlers/Wireguard/Psk.antt =====
-- `wg.rotate_psk`.
use panel_agent.Common.{
  Option, none, some, List, [], ◌∷◌, ◌++◌, Text, txt, starts_with, lines, trim, trim_start, length,
  ◌==◌, if◌then◌else◌,
}
use panel_agent.Runtime.{
  Env, VerifiedCommand, FileOp, AgentError, M, ◌>>=◌, ◌>>◌, pure, ask, refuse_if, when, must_start,
  must_run, command, command_with, Answer, answer_ok,
}
use panel_agent.Handlers.Params.{require_str, refuse_read}

abbrev first_or_empty : List Text → Text
first_or_empty [] = []
first_or_empty (l ∷ ls) = l

unfoldable pub replace_lines : Text → List Text → List Text
unfolding txt
replace_lines psk [] = []
replace_lines psk (line ∷ ls) =
    (if starts_with (trim_start line) (txt "PresharedKey")
      then txt "PresharedKey = " ++ psk
      else line)
    ∷ replace_lines psk ls

-- `.join("\n")`
unfoldable pub join_lines : List Text → Text
join_lines [] = []
join_lines (l ∷ []) = l
join_lines (l ∷ k ∷ ls) = l ++ (10 ∷ join_lines (k ∷ ls))

unfoldable pub replace_psk : Text → Text → Text
unfolding replace_lines join_lines
replace_psk psk conf = join_lines (replace_lines psk (lines conf))

module _ (e : Env) where
  open e use {json, machine}
  open json use {Value}
  open machine use {World, file, read_file}

  abbrev pub psk_path : Text
  unfolding txt
  psk_path = txt "/etc/lynx/credentials/lynx-wg-psk"

  abbrev pub wg_conf_path : Text
  unfolding txt
  wg_conf_path = txt "/etc/lynx/wireguard/lynx-wg.conf"

  unfoldable pub set_private : M World AgentError (Unit {0})
  set_private = do ask (file (FileOp.set_mode psk_path 0o600)); pure tt

  -- A failed write is only logged.
  unfoldable pub persist_psk : Text → M World AgentError (Unit {0})
  unfolding set_private
  persist_psk psk = do written ← ask (file (FileOp.write psk_path psk)); when written set_private

  unfoldable pub update_conf : Text → Option Text → M World AgentError (Unit {0})
  unfolding replace_psk
  update_conf psk none = pure tt
  update_conf psk (some conf) = do
    ask (file (FileOp.write wg_conf_path (replace_psk psk conf)))
    pure tt

  unfoldable pub handle_wg_rotate_psk : VerifiedCommand Value → M World AgentError Answer
  unfolding persist_psk update_conf txt
  handle_wg_rotate_psk cmd = do
    refuse_read cmd.permission (txt "wg.rotate_psk requires write permission")
    new_psk ← require_str json cmd.command (txt "new_psk")
    (_, peers) ←
        must_start machine AgentError.internal
          (command (txt "wg") (txt "show" ∷ txt "wg-lynx-agent" ∷ txt "peers" ∷ []))
    let dashboard_pubkey = first_or_empty (lines (trim peers))
    refuse_if (length dashboard_pubkey == 0) AgentError.internal
    must_run machine AgentError.internal (
        command_with (txt "wg")
          (txt "set"
            ∷ txt "wg-lynx-agent"
            ∷ txt "peer"
            ∷ dashboard_pubkey
            ∷ txt "preshared-key"
            ∷ txt "/dev/stdin"
            ∷ [])
          new_psk)
    persist_psk new_psk
    conf ← ask (read_file wg_conf_path)
    update_conf new_psk conf
    pure answer_ok

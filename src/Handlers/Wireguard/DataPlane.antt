-- ===== src/Handlers/Wireguard/DataPlane.antt =====
-- `wg.data_plane.setup` and `wg.data_plane.teardown`.
use panel_agent.Common.{
  ℕ, ◌%◌, ◌^◌, not, Option, none, some, List, [], ◌∷◌, ◌++◌, Text, txt, decimal, concat, splitn,
  ◌==◌, if◌then◌else◌,
}
use panel_agent.Runtime.{
  Env, VerifiedCommand, FileOp, AgentError, M, ◌>>=◌, ◌>>◌, pure, ask, when, must_file, must_start,
  must_run, command, Answer, Field, answer_with,
}
use panel_agent.Auth.{get_str}
use panel_agent.Handlers.Params.{require_str, refuse_read}
use panel_agent.Handlers.Wireguard.Names.{interface_of}

-- `rsplitn(2, '.')`: what stands before the last dot, if there is one.
unfoldable pub before_last_dot : Text → Option Text
before_last_dot [] = none
before_last_dot (c ∷ s) = elim (before_last_dot s) [
  | some t ↦ some (c ∷ t)
  | none ↦ if c == b'.' then some [] else none
]

abbrev first_part : List Text → Text
first_part [] = []
first_part (p ∷ ps) = p

abbrev subnet_or : Text → Option Text → Text
unfolding txt
subnet_or whole none = whole
subnet_or whole (some subnet) = subnet ++ txt ".0/30"

unfoldable pub peer_allowed_of : Text → Text
unfolding before_last_dot subnet_or
peer_allowed_of local_ip_cidr =
    subnet_or local_ip_cidr (before_last_dot (first_part (splitn 1 b'/' local_ip_cidr)))

abbrev endpoint_line : Option Text → Text
unfolding txt concat
endpoint_line none = []
endpoint_line (some ep) = concat (txt "Endpoint = " ∷ ep ∷ txt "\n" ∷ [])

abbrev pub config_path_of : Text → Text
unfolding txt concat
config_path_of interface = concat (txt "/etc/wireguard/" ∷ interface ∷ txt ".conf" ∷ [])

abbrev pub port_or : ℕ → Option ℕ → ℕ
port_or d none = d
port_or d (some n) = n

-- The configuration file of the interface.
unfoldable pub tunnel_config : Text → Text → ℕ → Text → Text → Text → Option Text → Text
unfolding txt concat endpoint_line
tunnel_config privkey local_ip_cidr wg_port peer_pubkey psk peer_allowed peer_endpoint = concat (
    txt "[Interface]\nPrivateKey = "
    ∷ privkey
    ∷ txt "\nAddress = "
    ∷ local_ip_cidr
    ∷ txt "\nListenPort = "
    ∷ decimal wg_port
    ∷ txt "\n\n[Peer]\nPublicKey = "
    ∷ peer_pubkey
    ∷ txt "\nPresharedKey = "
    ∷ psk
    ∷ txt "\nAllowedIPs = "
    ∷ peer_allowed
    ∷ txt "\n"
    ∷ endpoint_line peer_endpoint
    ∷ [])

module _ (e : Env) where
  open e use {json, machine}
  open json use {Value, get, as_u64}
  open machine use {World, run, file}

  abbrev pub wg_port_of : Value → ℕ
  unfolding txt
  wg_port_of command =
      port_or 51821 (elim (get (txt "wg_port") command) [ none ↦ none | some v ↦ as_u64 v ])
      % 2 ^ 16

  unfoldable pub sync_conf : Text → M World AgentError (Unit {0})
  unfolding txt
  sync_conf interface = do
    must_run machine AgentError.internal
        (command (txt "wg") (txt "syncconf" ∷ interface ∷ config_path_of interface ∷ []))
    pure tt

  unfoldable pub handle_wg_data_plane_setup : VerifiedCommand Value → M World AgentError Answer
  unfolding sync_conf txt tunnel_config peer_allowed_of
  handle_wg_data_plane_setup cmd = do
    refuse_read cmd.permission (txt "wg.data_plane.setup requires write permission")
    tunnel_id ← require_str json cmd.command (txt "tunnel_id")
    interface ← interface_of tunnel_id
    privkey ← require_str json cmd.command (txt "private_key")
    local_ip_cidr ← require_str json cmd.command (txt "local_ip")
    peer_pubkey ← require_str json cmd.command (txt "peer_pubkey")
    psk ← require_str json cmd.command (txt "psk")
    must_file machine AgentError.internal (
        FileOp.write_private (config_path_of interface) (
          tunnel_config privkey local_ip_cidr (wg_port_of cmd.command) peer_pubkey psk
            (peer_allowed_of local_ip_cidr) (get_str json (txt "peer_endpoint") cmd.command)))
    (up, _) ←
        must_start machine AgentError.internal
          (command (txt "wg-quick") (txt "up" ∷ interface ∷ []))
    when (not up) (sync_conf interface)
    pure (answer_with ((txt "interface", Field.text interface) ∷ []))

  unfoldable pub handle_wg_data_plane_teardown : VerifiedCommand Value → M World AgentError Answer
  unfolding txt
  handle_wg_data_plane_teardown cmd = do
    refuse_read cmd.permission (txt "wg.data_plane.teardown requires write permission")
    tunnel_id ← require_str json cmd.command (txt "tunnel_id")
    interface ← interface_of tunnel_id
    ask (run (command (txt "wg-quick") (txt "down" ∷ interface ∷ [])))
    ask (file (FileOp.remove (config_path_of interface)))
    pure (answer_with ((txt "interface", Field.text interface) ∷ []))

-- ===== src/Handlers/Wireguard/Suffix.antt =====
-- The names of the data-plane interfaces.
use panel_agent.Common.{◌≤◌, ◌≡◌, true, Text, txt, ◌++◌, length, all, arith, length-take-le}
use panel_agent.Runtime.{Agent, ok}
use panel_agent.Handlers.Params.{is_alphanumeric}
use panel_agent.Handlers.Wireguard.{interface_of, iface_suffix, remove_dashes}

suffix_length : (tunnel_id : Text) → length (iface_suffix tunnel_id) ≤ 8
unfolding iface_suffix
suffix_length t = ground (
  arith,
  length-take-le 8 (remove_dashes t),
  length-take-le (length (remove_dashes t)) (remove_dashes t),
)

-- An accepted tunnel gives an interface `wg-lynx-dp-` with a suffix of at most eight letters and
-- digits, and leaves the state as it was.
pub interface_of-ok :
    {W : Type 0} (tunnel_id : Text) (s : Agent W) {name : Text}
    → (interface_of tunnel_id s).0 ≡ ok name
    → (suffix : Text) × (name ≡ txt "wg-lynx-dp-" ++ suffix)
      × (length suffix ≤ 8)
      × (all is_alphanumeric suffix ≡ true)
      × ((interface_of tunnel_id s).1 ≡ s)
unfolding interface_of
interface_of-ok tunnel_id s h =
    (iface_suffix tunnel_id, ground arith, suffix_length tunnel_id, ground arith, ground arith)

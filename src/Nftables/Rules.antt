-- ===== src/Nftables/Rules.antt =====
-- The parts of the ruleset that depend on the configuration, and the types.
use Prim.Native.String.{String}
use panel_agent.Common.{
  ℕ, Bool, true, false, Option, none, some, List, [], ◌∷◌, ◌++◌, Text, txt, decimal, concat,
}

pub record OrgNetwork : Type 0 where
  pub org_id : Text
  pub subnet : Text

pub record Ruleset : Type 0 where
  pub wireguard_port : ℕ
  pub dashboard_port : Option ℕ
  pub org_networks : List OrgNetwork
  pub global_body : Text
  pub local_body : Text
  pub global_output_body : Text
  pub local_output_body : Text
  pub dashboard_wg_ip : Option Text

-- Lines, each with its line feed.
unfoldable pub rows : List String → Text
unfolding txt
rows [] = []
rows (s ∷ ss) = txt s ++ (10 ∷ rows ss)

abbrev pub is_some : Option ℕ → Bool
is_some none = false
is_some (some _) = true

unfoldable pub dashboard_port_rule : Option ℕ → Text
unfolding txt rows concat
dashboard_port_rule none = []
dashboard_port_rule (some port) = concat (
    rows ("" ∷ "        # Dashboard panel port" ∷ [])
    ∷ txt "        tcp dport "
    ∷ decimal port
    ∷ rows (" ct state new accept" ∷ [])
    ∷ [])

unfoldable pub management_plane_rules : Bool → Text
unfolding rows
management_plane_rules false = []
management_plane_rules true = rows (
    "" ∷ "        # Allow agents -> dashboard backend (management plane)"
    ∷ "        ip saddr 10.100.0.0/16 ip daddr 10.100.0.1 tcp dport 8080 ct state new accept" ∷ ""
    ∷ "        # Block agent-to-agent traffic within management subnet"
    ∷ "        ip saddr 10.100.0.0/16 ip daddr 10.100.0.0/16 drop" ∷ ""
    ∷ "        # Dashboard WireGuard interface can reach itself"
    ∷ "        ip saddr 10.100.0.1 accept" ∷ [])

unfoldable pub dashboard_dns_rules : Bool → Text
unfolding rows
dashboard_dns_rules false = []
dashboard_dns_rules true = rows (
    "" ∷ "        # DNS for container networks (aardvark-dns on Netavark bridge interfaces)"
    ∷ "        iifname \"podman*\" udp dport 53 accept"
    ∷ "        iifname \"podman*\" tcp dport 53 accept" ∷ [])

unfoldable pub container_forward_rules : Text
unfolding rows txt
container_forward_rules =
    10 ∷ txt "        # New connections to published container ports "
    ++ rows (
        "(Netavark DNAT rewrites dst to 10.89.x.x)"
        ∷ "        ip daddr 10.89.0.0/16 ct state new accept" ∷ ""
        ∷ "        # Outbound traffic from Podman containers (package installs, GitHub, cert renewals, etc.)"
        ∷ "        iifname \"podman*\" accept" ∷ [])

unfoldable pub dashboard_wg_forward_rules : Bool → Text
unfolding rows
dashboard_wg_forward_rules false = []
dashboard_wg_forward_rules true = rows (
    "" ∷ "        # Backend container traffic to/from WireGuard (dashboard <-> agents)"
    ∷ "        oifname \"wg-lynx-dash\" accept" ∷ "        iifname \"wg-lynx-dash\" accept" ∷ [])

unfoldable pub wg_rule : Option ℕ → Option Text → ℕ → Text
unfolding txt concat
wg_rule (some _) ip port = concat (txt "        udp dport " ∷ decimal port ∷ txt " accept" ∷ [])
wg_rule none none port = concat (txt "        udp dport " ∷ decimal port ∷ txt " accept" ∷ [])
wg_rule none (some ip) port =
    concat (txt "        ip saddr " ∷ ip ∷ txt " udp dport " ∷ decimal port ∷ txt " accept" ∷ [])

unfoldable pub org_rules : List OrgNetwork → Text
unfolding txt rows concat
org_rules [] = []
org_rules (org ∷ orgs) = concat (
    txt "        # org "
    ∷ org.org_id
    ∷ rows (" isolation" ∷ [])
    ∷ txt "        ip saddr "
    ∷ org.subnet
    ∷ txt " ip daddr != "
    ∷ org.subnet
    ∷ rows (" drop;" ∷ [])
    ∷ org_rules orgs
    ∷ [])

-- ===== src/Nftables/Render.antt =====
-- `render_ruleset`.
use panel_agent.Common.{ℕ, Option, List, [], ◌∷◌, Text, txt, concat}
use panel_agent.Nftables.Rules.{
  OrgNetwork, Ruleset, rows, is_some, dashboard_port_rule, management_plane_rules,
  dashboard_dns_rules, container_forward_rules, dashboard_wg_forward_rules, wg_rule, org_rules,
}

-- The text up to the body of `lynx-global`.
unfoldable pub base_head : ℕ → Option ℕ → Option Text → Text
unfolding rows concat wg_rule management_plane_rules dashboard_port_rule dashboard_dns_rules
base_head port dashboard_port ip = concat (
    rows (
      "" ∷ "destroy table inet lynx-agent" ∷ "add table inet lynx-agent" ∷ "table inet lynx-agent {"
      ∷ "    # Immutable invariants — never editable from dashboard" ∷ "    chain lynx-base {"
      ∷ "        type filter hook input priority 0; policy drop;" ∷ ""
      ∷ "        # Established/related" ∷ "        ct state established,related accept" ∷ ""
      ∷ "        # Loopback" ∷ "        iif lo accept" ∷ ""
      ∷ "        # ICMP — path MTU, diagnostics, reachability" ∷ "        ip protocol icmp accept"
      ∷ "        ip6 nexthdr icmpv6 accept" ∷ ""
      ∷ "        # SSH — emergency admin access (per-source-IP rate limit)" ∷ [])
    ∷ txt "        tcp dport 22 ct state new meter ssh_throttle "
    ∷ rows (
        "{ ip saddr limit rate 10/minute burst 20 packets } accept" ∷ ""
        ∷ "        # WireGuard management plane — remote agents restrict to dashboard IP" ∷ [])
    ∷ txt "        "
    ∷ wg_rule dashboard_port ip port
    ∷ rows ("" ∷ "" ∷ "        # Dashboard backend (management plane — WireGuard only)" ∷ [])
    ∷ management_plane_rules (is_some dashboard_port)
    ∷ rows ("" ∷ [])
    ∷ dashboard_port_rule dashboard_port
    ∷ rows ("" ∷ [])
    ∷ dashboard_dns_rules (is_some dashboard_port)
    ∷ rows (
        "" ∷ "        # Run global and local rule chains" ∷ "        jump lynx-global"
        ∷ "        jump lynx-local" ∷ "" ∷ "        drop" ∷ "    }" ∷ ""
        ∷ "    # Dashboard global rules — input, apply to all agents" ∷ "    chain lynx-global {"
        ∷ [])
    ∷ [])

-- Between the bodies of `lynx-global` and `lynx-local`.
unfoldable pub between_input : Text
unfolding rows
between_input = rows (
    "" ∷ "    }" ∷ "" ∷ "    # Dashboard local rules — input, apply to this agent only"
    ∷ "    chain lynx-local {" ∷ [])

-- Between the bodies of `lynx-local` and `lynx-global-output`: the chain `lynx-forward`.
unfoldable pub forward_part : Option ℕ → List OrgNetwork → Text
unfolding rows concat container_forward_rules dashboard_wg_forward_rules org_rules
forward_part dashboard_port orgs = concat (
    rows (
      "" ∷ "    }" ∷ "" ∷ "    chain lynx-forward {"
      ∷ "        type filter hook forward priority 0; policy drop;" ∷ ""
      ∷ "        ct state established,related accept" ∷ [])
    ∷ container_forward_rules
    ∷ rows ("" ∷ [])
    ∷ dashboard_wg_forward_rules (is_some dashboard_port)
    ∷ rows ("" ∷ [])
    ∷ org_rules orgs
    ∷ rows (
        "    }" ∷ "" ∷ "    chain lynx-output {"
        ∷ "        type filter hook output priority 0; policy accept;" ∷ ""
        ∷ "        # Dashboard global output rules — apply to all agents" ∷ [])
    ∷ [])

unfoldable pub between_output : Text
unfolding rows
between_output =
    rows ("" ∷ "" ∷ "        # Dashboard local output rules — apply to this agent only" ∷ [])

unfoldable pub closing : Text
unfolding rows
closing = rows ("" ∷ "    }" ∷ "}" ∷ [])

unfoldable pub render_ruleset : Ruleset → Text
unfolding base_head between_input forward_part between_output closing concat
render_ruleset r = concat (
    base_head r.wireguard_port r.dashboard_port r.dashboard_wg_ip
    ∷ r.global_body
    ∷ between_input
    ∷ r.local_body
    ∷ forward_part r.dashboard_port r.org_networks
    ∷ r.global_output_body
    ∷ between_output
    ∷ r.local_output_body
    ∷ closing
    ∷ [])

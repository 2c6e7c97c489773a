-- ===== src/NginxWatchdog/Growth.antt =====
-- A round of the watchdog, and the lockdown and the audit log.
use panel_agent.Common.{ℕ, zero, suc, ◌+◌, Option, none, some, Text}
use panel_agent.Runtime.{Env, NginxRow}
use panel_agent.Runtime.Web.{Web}
use panel_agent.Runtime.Growth.{Stays, stays}
use panel_agent.Audit.Calm.{append-Stays}
use panel_agent.NginxWatchdog.{
  is_container_running, container_ever_existed, http_health_ok, audit_nginx_event, redeploy_from,
  redeploy_nginx, restore_row, restore_nginx_config, check_nginx,
}

module _ (e : Env) (web : Web e.machine.World e.json.Value) (E : Type 0) where
  event-Stays : (event detail : Text) → Stays e.crypto (audit_nginx_event e web E event detail)
  unfolding audit_nginx_event
  event-Stays event detail = search (stays, append-Stays e) depth 20

  redeploy-Stays : (attempt left : ℕ) → Stays e.crypto (redeploy_from e web E attempt left)
  unfolding redeploy_from
  redeploy-Stays attempt zero = search (stays, event-Stays)
  redeploy-Stays attempt (suc left) =
      search (stays, event-Stays, redeploy-Stays (attempt + 1) left) depth 20

  row-Stays : (o : Option NginxRow) → Stays e.crypto (restore_row e web E o)
  unfolding restore_row
  row-Stays none = search stays
  row-Stays (some row) = search (stays, event-Stays) depth 20

  pub check_nginx-Stays : Stays e.crypto (check_nginx e web E)
  unfolding check_nginx is_container_running container_ever_existed http_health_ok redeploy_nginx
      restore_nginx_config
  check_nginx-Stays = search (stays, redeploy-Stays, row-Stays) depth 40 fits 5000

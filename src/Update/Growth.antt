-- ===== src/Update/Growth.antt =====
-- The updater, and the lockdown and the audit log.
use panel_agent.Common.{ℕ, zero, suc, Option, none, Text}
use panel_agent.Runtime.{Env, Outcome, ok, err, panicked, pure}
use panel_agent.Runtime.Web.{Web}
use panel_agent.Runtime.Growth.{Stays, stays, option-Stays}
use panel_agent.Update.{
  UpdateError, Exit, validate_github_url, build_ssrf_safe_client, download_bytes, load_verify_key,
  verify_signature, install, perform_update, polls, after_polls, startup_health_guard,
  fetch_latest_agent_version, check_and_apply, fallback_round,
}
use panel_agent.Update.Fallback.{fallback_turn, exit_of}

module _ (e : Env) (web : Web e.machine.World e.json.Value)
    (decode_base64 : Text → Option Text) where
  open e use {json}

  client-Stays : (url : Text) → Stays e.crypto (build_ssrf_safe_client e web url)
  unfolding build_ssrf_safe_client
  client-Stays url = search stays depth 40 fits 3000

  pub update-Stays :
      (version download_url sig_url : Text)
      → Stays e.crypto (perform_update e web decode_base64 version download_url sig_url)
  unfolding perform_update validate_github_url download_bytes verify_signature load_verify_key
      install
  update-Stays version download_url sig_url = search (stays, client-Stays) depth 60 fits 5000

  latest-Stays : Stays e.crypto (fetch_latest_agent_version e web decode_base64)
  unfolding fetch_latest_agent_version
  latest-Stays = search (stays, client-Stays) depth 20

  apply-Stays : (arch : Text) → Stays e.crypto (check_and_apply e web decode_base64 arch)
  unfolding check_and_apply
  apply-Stays arch = search (stays, latest-Stays, update-Stays) depth 20

  module _ (E : Type 0) where
    exit-Stays :
        (r : Outcome UpdateError (Option Exit))
        → Stays e.crypto (exit_of e web decode_base64 {E = E} r)
    exit-Stays (ok exit) = search stays
    exit-Stays (err x) = search stays
    exit-Stays panicked = search stays

    turn-Stays : (arch : Text) → Stays e.crypto (fallback_turn e web decode_base64 {E = E} arch)
    turn-Stays arch = search (stays, apply-Stays, exit-Stays) depth 20

    pub fallback-Stays :
        (arch : Text) → Stays e.crypto (fallback_round e web decode_base64 {E = E} arch)
    unfolding fallback_round
    fallback-Stays arch =
        option-Stays e.crypto e.config.dashboard_url (pure none) _ (search stays)
          (λ _. turn-Stays arch)

    polls-Stays : (n : ℕ) → Stays e.crypto (polls e web E n)
    unfolding polls
    polls-Stays zero = search stays
    polls-Stays (suc n) = search (stays, polls-Stays n) depth 20

    pub guard-Stays : Stays e.crypto (startup_health_guard e web E)
    unfolding startup_health_guard after_polls
    guard-Stays = search (stays, polls-Stays) depth 40 fits 3000

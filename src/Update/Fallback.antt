-- ===== src/Update/Fallback.antt =====
-- The updater of src/update/fallback.rs.
use panel_agent.Common.{
  ℕ, ◌+◌, ◌-◌, not, Option, none, some, List, [], ◌∷◌, ◌++◌, Text, txt, strip_prefix, leb, ◌==◌,
  if◌then◌else◌,
}
use panel_agent.Runtime.{
  Env, Outcome, ok, err, panicked, M, ◌>>=◌, pure, ask, gets_app, branch, or_throw, catch,
  from_outcome,
}
use panel_agent.Runtime.Web.{Web}
use panel_agent.Auth.{get_str}
use panel_agent.Update.Version.{is_newer}
use panel_agent.Update.Download.{UpdateError, build_ssrf_safe_client}
use panel_agent.Update.Perform.{Exit, perform_update}

abbrev pub absent_threshold_secs : ℕ
absent_threshold_secs = 21600

abbrev github_api : Text
github_api = txt "https://api.github.com/repos/Glyndor/panel-agent/releases"

-- How long the dashboard has been away; 0 as the last contact means that there was none.
unfoldable pub absent_secs_of : ℕ → ℕ → ℕ
absent_secs_of last_contact now =
    if last_contact == 0 then absent_threshold_secs + 1 else now - last_contact

module _ (e : Env) (web : Web e.machine.World e.json.Value)
    (decode_base64 : Text → Option Text) where
  open e use {machine, json, config}
  open machine use {World, clock}
  open json use {Value, as_array}
  open web use {get_json}

  abbrev tag_of : Value → Text
  tag_of release = elim (get_str json (txt "tag_name") release) [ none ↦ [] | some t ↦ t ]

  -- The first tag with a `v`, without it.
  unfoldable pub first_version : List Value → Option Text
  unfolding txt strip_prefix
  first_version [] = none
  first_version (release ∷ releases) = elim (strip_prefix (b'v' ∷ []) (tag_of release)) [
    | some ver ↦ some ver
    | none ↦ first_version releases
  ]

  unfoldable pub fetch_latest_agent_version : M World UpdateError Text
  unfolding txt
  fetch_latest_agent_version = do
    client ← build_ssrf_safe_client e web github_api
    reply ← ask (get_json client github_api)
    value ← or_throw reply UpdateError.releases
    releases ← or_throw (as_array value) UpdateError.releases
    or_throw (first_version releases) UpdateError.no_release

  -- `arch` is `std::env::consts::ARCH` as the releases name it.
  abbrev pub release_url : Text → Text → Text
  release_url arch latest =
      txt "https://github.com/Glyndor/panel-agent/releases/download/v"
      ++ (latest ++ (txt "/lynx-agent-linux-" ++ arch))

  unfoldable pub check_and_apply : Text → M World UpdateError (Option Exit)
  unfolding txt
  check_and_apply arch = do
    latest ← fetch_latest_agent_version
    branch (not (is_newer latest config.version)) (pure none) (do
      exit ←
          perform_update e web decode_base64 latest (release_url arch latest)
            (release_url arch latest ++ txt ".sig")
      pure (some exit))

  abbrev pub exit_of : {E : Type 0} → Outcome UpdateError (Option Exit) → M World E (Option Exit)
  exit_of (ok exit) = pure exit
  exit_of (err x) = pure none
  exit_of panicked = from_outcome panicked

  -- With a dashboard: an update, if it has been away for long.
  abbrev pub fallback_turn : {E : Type 0} → Text → M World E (Option Exit)
  fallback_turn arch = do
    last_contact ← gets_app (λ a. a.last_dashboard_contact)
    now ← ask clock
    branch (leb (absent_secs_of last_contact now) absent_threshold_secs) (pure none)
        (do result ← catch (check_and_apply arch); exit_of result)

  -- A turn of the loop: the exit, if it installs an update. An error is logged.
  unfoldable pub fallback_round : {E : Type 0} → Text → M World E (Option Exit)
  fallback_round arch = elim config.dashboard_url [ none ↦ pure none | some _ ↦ fallback_turn arch ]

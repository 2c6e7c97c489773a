-- ===== src/Update/Absence.antt =====
-- When the updater that works without the dashboard installs.
use panel_agent.Common.{
  ◌<◌, ◌≡◌, refl, ap, ◌∙◌, true, inl, inr, not, Option, none, some, Text, txt, ◌++◌, leb, arith,
  Bool-cases,
}
use panel_agent.Runtime.{Env, Agent, ok, M, ◌>>=◌, pure, branch, catch}
use panel_agent.Runtime.Web.{Web}
use panel_agent.Runtime.Laws.{bind-ok, Outcome-cases}
use panel_agent.Update.Download.{UpdateError}
use panel_agent.Update.Perform.{Exit, perform_update}
use panel_agent.Update.Version.{is_newer}
use panel_agent.Update.Fallback.{
  absent_threshold_secs, absent_secs_of, fetch_latest_agent_version, release_url, check_and_apply,
  exit_of, fallback_turn, fallback_round,
}

module _ (e : Env) (web : Web e.machine.World e.json.Value) (decode_base64 : Text → Option Text)
    (arch : Text) where
  open e use {machine, config}
  open machine use {World, clock}

  -- A newer release was named, and its binary and signature passed `perform_update`.
  abbrev pub IsNewRelease : Exit → Type 0
  IsNewRelease exit =
      (latest : Text) × (is_newer latest config.version ≡ true)
      × (t : Agent World) × (t' : Agent World) × (perform_update e web decode_base64 latest
            (release_url e web decode_base64 arch latest)
            (release_url e web decode_base64 arch latest ++ txt ".sig") t
          ≡ (ok exit, t'))

  abbrev update_to : Text → M World UpdateError (Option Exit)
  update_to latest = do
    exit ←
        perform_update e web decode_base64 latest (release_url e web decode_base64 arch latest)
          (release_url e web decode_base64 arch latest ++ txt ".sig")
    pure (some exit)

  abbrev if_newer : Text → M World UpdateError (Option Exit)
  if_newer latest = branch (not (is_newer latest config.version)) (pure none) (update_to latest)

  same_exit :
      (x y : Exit) (s t : Agent World)
      → pure {W = World} {E = UpdateError} (some x) s ≡ (ok (some y), t)
      → x ≡ y
  same_exit x y s t h = ground arith

  if_newer-some :
      (latest : Text) (s s' : Agent World) (exit : Exit)
      → if_newer latest s ≡ (ok (some exit), s')
      → IsNewRelease exit
  unfolding txt
  if_newer-some latest s s' exit h = elim (Bool-cases (is_newer latest config.version)) [
    | inr old ↦ absurd (ground arith)
    | inl newer ↦
        let steps : update_to latest s ≡ (ok (some exit), s') = ground arith in
        let (exit', (t', (ran, gave))) =
          bind-ok (λ exit. pure (some exit))
            (perform_update e web decode_base64 latest (release_url e web decode_base64 arch latest)
              (release_url e web decode_base64 arch latest ++ txt ".sig"))
            s s' steps in
        (latest, newer, s, t', ran ∙ ap (λ x. (ok x, t')) (same_exit exit' exit t' s' gave))
  ]

  check_and_apply-some :
      (s s' : Agent World) (exit : Exit)
      → check_and_apply e web decode_base64 arch s ≡ (ok (some exit), s')
      → IsNewRelease exit
  unfolding check_and_apply txt
  check_and_apply-some s s' exit h =
      let (latest, (t, (found, rest))) =
        bind-ok if_newer (fetch_latest_agent_version e web decode_base64) s s' h in
      if_newer-some latest t s' exit rest

  module _ (E : Type 0) where
    after_check :
        (s s' : Agent World) (exit : Exit)
        → (do
          result ← catch {D = E} (check_and_apply e web decode_base64 arch)
          exit_of e web decode_base64 {E = E} result)
            s
          ≡ (ok (some exit), s')
        → IsNewRelease exit
    after_check s s' exit h = elim (Outcome-cases (check_and_apply e web decode_base64 arch s).0) [
      | inl (o, eq) ↦
          check_and_apply-some s (check_and_apply e web decode_base64 arch s).1 exit (ground arith)
      | inr (inl (x, eq)) ↦ absurd (ground arith)
      | inr (inr eq) ↦ absurd (ground arith)
    ]

    turn-some :
        (s s' : Agent World) (exit : Exit)
        → fallback_turn e web decode_base64 {E = E} arch s ≡ (ok (some exit), s')
        → (absent_threshold_secs < absent_secs_of s.app.last_dashboard_contact (clock s.world).0)
          × IsNewRelease exit
    turn-some s s' exit h =
        elim (Bool-cases (
          leb (absent_secs_of s.app.last_dashboard_contact (clock s.world).0)
            absent_threshold_secs)) [
              | inl present ↦ absurd (ground arith)
              | inr away ↦ (
                ground arith,
                after_check (record s { world = (clock s.world).1 }) s' exit (ground arith),
              )
            ]

    option-some :
        (o : Option Text) (s s' : Agent World) (exit : Exit)
        → (elim o as (λ _. M World E (Option Exit)) [
          | none ↦ pure none
          | some _ ↦ fallback_turn e web decode_base64 {E = E} arch
        ])
            s
          ≡ (ok (some exit), s')
        → ((url : Text) × (o ≡ some url))
          × ((absent_threshold_secs < absent_secs_of s.app.last_dashboard_contact (clock s.world).0)
              × IsNewRelease exit)
    option-some none s s' exit h = absurd (ground arith)
    option-some (some url) s s' exit h = ((url, refl), turn-some s s' exit h)

    -- The updater that works without the dashboard ends the process only if a dashboard is configured,
    -- it has been away for more than six hours by the clock, counting one that was never there as away,
    -- and a newer release than the running version was installed by `perform_update` from its URL.
    pub fallback_round-some :
        (s s' : Agent World) (exit : Exit)
        → fallback_round e web decode_base64 {E = E} arch s ≡ (ok (some exit), s')
        → ((url : Text) × (config.dashboard_url ≡ some url))
          × ((absent_threshold_secs < absent_secs_of s.app.last_dashboard_contact (clock s.world).0)
              × IsNewRelease exit)
    unfolding fallback_round
    fallback_round-some s s' exit h = option-some config.dashboard_url s s' exit h

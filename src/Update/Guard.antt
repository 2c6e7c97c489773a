-- ===== src/Update/Guard.antt =====
-- `spawn_startup_health_guard` of src/update/mod.rs.
use panel_agent.Common.{
  ℕ, zero, suc, Bool, true, false, Option, none, some, Text, txt, ◌++◌, if◌then◌else◌,
}
use panel_agent.Runtime.{Env, FileOp, M, ◌>>=◌, ◌>>◌, pure, ask, tell, branch}
use panel_agent.Runtime.Web.{Web}
use panel_agent.Update.Perform.{Exit, agent_binary}

abbrev critical_file : Text
critical_file = txt "/etc/lynx/CRITICAL"

module _ (e : Env) (web : Web e.machine.World e.json.Value) (E : Type 0) where
  open e use {machine}
  open machine use {World, file}
  open web use {build_client, is_healthy, sleep, timestamp}

  -- At most so many polls: whether one was answered.
  unfoldable pub polls : ℕ → M World E Bool
  unfolding txt
  polls zero = pure false
  polls (suc n) = do
    tell (sleep 2)
    healthy ← ask (is_healthy (txt "http://127.0.0.1:9090/health"))
    branch healthy (pure true) (polls n)

  -- A copy beside the binary, then the rename: whether both were done.
  abbrev restore_prev : M World E Bool
  restore_prev = do
    present ← ask (file (FileOp.exists (agent_binary ++ txt ".prev")))
    branch present
        (do
          copied ←
              ask (
                file (FileOp.copy (agent_binary ++ txt ".prev") (agent_binary ++ txt ".restoring")))
          branch copied (ask (file (FileOp.rename (agent_binary ++ txt ".restoring") agent_binary)))
              (pure false))
        (pure false)

  abbrev reason_of : Bool → Text
  reason_of restored =
      if restored
      then txt "new binary failed health check; restored .prev"
      else txt "new binary failed health check; .prev unavailable — MANUAL RECOVERY REQUIRED"

  -- After the polls: no exit if one was answered.
  unfoldable pub after_polls : Bool → M World E (Option Exit)
  unfolding txt
  after_polls healthy =
      branch healthy (do _ ← ask (file (FileOp.remove critical_file)); pure none)
        (do
          restored ← restore_prev
          ts ← ask timestamp
          _ ← ask (
              file (
                FileOp.write critical_file (
                  txt "timestamp="
                  ++ (ts
                      ++ (txt "\ncomponent=lynx-agent\nreason="
                          ++ (reason_of restored ++ txt "\n"))))))
          pure (some (Exit.exits 1)))

  -- The task: the exit that it makes, if it makes one.
  unfoldable pub startup_health_guard : M World E (Option Exit)
  startup_health_guard = do
    built ← ask build_client
    branch built (do healthy ← polls 15; after_polls healthy) (pure none)

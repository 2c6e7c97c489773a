-- ===== src/Daemon/Invariants.antt =====
-- What every sequence of turns keeps.
use panel_agent.Common.{
  ℕ, ◌≡◌, Bool, true, false, List, [], ◌∷◌, Option, none, some, Text, arith, if◌then◌else◌,
}
use panel_agent.State.{AppState, initial, heartbeat_watchdog, pg_watchdog, is_locked_down}
use panel_agent.State.Lockdown.{
  IsStuck, IsConsistent, LockEvent, lock_event, lock_event-IsStuck, lock_event-IsConsistent,
}
use panel_agent.Runtime.{Env, Agent, Db, SignedCommand, AgentError, err, pure}
use panel_agent.Runtime.Ends.{Extends}
use panel_agent.Audit.Chain.{IsChain, IsOrdered}
use panel_agent.Audit.Linked.{Links-IsChain}
use panel_agent.Runtime.Growth.{Locks, Grows, Grows-refl, Grows-trans, Stays, stays, lock-Stays}
use panel_agent.Handlers.System.{execute_command}
use panel_agent.Handlers.System.Growth.{execute-Stays, heartbeat-Stays}
use panel_agent.Metrics.Growth.{metrics-Stays}
use panel_agent.Nftables.Growth.{check_once-Stays}
use panel_agent.Conflict.Growth.{check_and_remove-Stays}
use panel_agent.NginxWatchdog.Growth.{check_nginx-Stays}
use panel_agent.Sync.Growth.{batch-Stays}
use panel_agent.Update.Growth.{fallback-Stays, update-Stays, guard-Stays}
use panel_agent.Startup.{reload_nftables, recover_containers}
use panel_agent.Startup.Growth.{reload-Stays, recover-Stays, cleanup-Stays}
use panel_agent.WsClient.Growth.{once-Stays}
use panel_agent.Daemon.Routes.{
  Request, Route, HttpReply, allows, route_of, on_cmd, on_heartbeat, serve, on_route,
  handle_request,
}
use panel_agent.Daemon.Turns.{Outside, TaskTurn, heartbeat_turn, pg_turn, run_turn, run_turns, boot}

heartbeat_watchdog-Locks : (now : ℕ) (a : AppState) → Locks a (heartbeat_watchdog now a)
unfolding lock_event
heartbeat_watchdog-Locks now a = (
  lock_event-IsStuck (LockEvent.heartbeat_tick now) a,
  lock_event-IsConsistent (LockEvent.heartbeat_tick now) a,
)

pg_watchdog-Locks : (failed : Bool) (a : AppState) → Locks a (pg_watchdog failed a)
unfolding lock_event
pg_watchdog-Locks failed a = (
  lock_event-IsStuck (LockEvent.pg_tick failed) a,
  lock_event-IsConsistent (LockEvent.pg_tick failed) a,
)

module _ (e : Env) (out : Outside e) where
  open e use {machine}
  open machine use {World}
  open out use {gauges, stream}

  cmd-Stays :
      (authorization : Option Text) (body : Option SignedCommand)
      → Stays e.crypto (on_cmd e gauges.floats gauges.probe stream authorization body)
  cmd-Stays authorization none = search stays
  cmd-Stays authorization (some signed) = search (stays, execute-Stays e)

  acknowledge-Stays :
      (body : Option SignedCommand)
      → Stays e.crypto (on_heartbeat e gauges.floats gauges.probe stream body)
  acknowledge-Stays none = search stays
  acknowledge-Stays (some signed) = search (stays, heartbeat-Stays e)

  serve-Stays :
      (route : Route) (r : Request)
      → Stays e.crypto (serve e gauges.floats gauges.probe stream route r)
  unfolding serve
  serve-Stays Route.health r = search stays
  serve-Stays Route.cmd r = cmd-Stays r.authorization r.body
  serve-Stays Route.metrics r =
      search (stays, metrics-Stays e gauges.floats gauges.probe stream) depth 20
  serve-Stays Route.heartbeat r = acknowledge-Stays r.body

  allowed-Stays :
      (allowed : Bool) (route : Route) (r : Request)
      → Stays e.crypto (
          if allowed
          then serve e gauges.floats gauges.probe stream route r
          else pure HttpReply.method_not_allowed)
  allowed-Stays true route r = serve-Stays route r
  allowed-Stays false route r = search stays

  route-Stays :
      (o : Option Route) (r : Request)
      → Stays e.crypto (on_route e gauges.floats gauges.probe stream o r)
  route-Stays none r = search stays
  route-Stays (some route) r = allowed-Stays (allows route r.method) route r

  request-Stays :
      (r : Request) → Stays e.crypto (handle_request e gauges.floats gauges.probe stream r)
  unfolding handle_request
  request-Stays r = route-Stays (route_of r.path) r

  heartbeat_turn-Stays : Stays e.crypto (heartbeat_turn e out)
  unfolding heartbeat_turn
  heartbeat_turn-Stays =
      search (stays, lock-Stays e.crypto World AgentError, heartbeat_watchdog-Locks)

  pg_turn-Stays : Stays e.crypto (pg_turn e out)
  unfolding pg_turn
  pg_turn-Stays = search (stays, lock-Stays e.crypto World AgentError, pg_watchdog-Locks)

  run_turn-Grows : (turn : TaskTurn) (s : Agent World) → Grows e.crypto s (run_turn e out turn s)
  unfolding run_turn Stays
  run_turn-Grows (TaskTurn.http r) s = request-Stays r s
  run_turn-Grows (TaskTurn.ws_turn turns url backoff) s =
      once-Stays e out.parse_signed out.format_uuid out.arch out.socket gauges turns url backoff s
  run_turn-Grows TaskTurn.heartbeat_tick s = heartbeat_turn-Stays s
  run_turn-Grows TaskTurn.pg_tick s = pg_turn-Stays s
  run_turn-Grows TaskTurn.nonce_tick s = cleanup-Stays e s
  run_turn-Grows TaskTurn.divergence_tick s = check_once-Stays e s
  run_turn-Grows TaskTurn.conflict_tick s = check_and_remove-Stays e AgentError out.io_error s
  run_turn-Grows TaskTurn.nginx_tick s = check_nginx-Stays e out.web AgentError s
  run_turn-Grows (TaskTurn.sync_tick url token) s = batch-Stays e out.encode_rows url token s
  run_turn-Grows TaskTurn.fallback_tick s =
      fallback-Stays e out.web out.decode_base64 AgentError out.arch s
  run_turn-Grows TaskTurn.guard_polls s = guard-Stays e out.web out.decode_base64 AgentError s
  run_turn-Grows (TaskTurn.update version download_url sig_url) s =
      update-Stays e out.web out.decode_base64 version download_url sig_url s

  run_turns-Grows :
      (turns : List TaskTurn) (s : Agent World) → Grows e.crypto s (run_turns e out turns s)
  unfolding run_turns
  run_turns-Grows [] s = Grows-refl e.crypto s
  run_turns-Grows (turn ∷ turns) s =
      Grows-trans e.crypto s (run_turn e out turn s) (run_turns e out turns (run_turn e out turn s))
        (run_turn-Grows turn s) (run_turns-Grows turns (run_turn e out turn s))

  -- Whatever turns the tasks take, in whatever order, and however each of them ends, the rows of the
  -- audit log are still there, unchanged and in their order, with at most newer rows in front.
  pub run_turns-Extends :
      (turns : List TaskTurn) (s : Agent World) → Extends s.db (run_turns e out turns s).db
  run_turns-Extends turns s =
      let (rows, (same, linked)) = (run_turns-Grows turns s).1 in (rows, same)

  -- If the audit log is a hash chain, and every row was written at a later clock reading than each
  -- older row, the log is a hash chain after any sequence of turns of the tasks, however each of them
  -- ends, and whatever row the database would give among rows of the same time.
  pub run_turns-IsChain :
      (turns : List TaskTurn) (s : Agent World)
      → IsChain e.crypto s.db.audit_log
      → IsOrdered (run_turns e out turns s).db.audit_log
      → IsChain e.crypto (run_turns e out turns s).db.audit_log
  run_turns-IsChain turns s h o =
      Links-IsChain e.crypto s.db.audit_log (run_turns e out turns s).db.audit_log
        (run_turns-Grows turns s).1 h o

  -- Once the agent is locked down for a reason other than a lost heartbeat, it stays so through every
  -- sequence of turns of its tasks, commands and acknowledgements included, and `POST /cmd` is then
  -- refused with the state left as it is.
  pub run_turns-IsStuck :
      (turns : List TaskTurn) (s : Agent World) (authorization : Option Text)
      (signed : SignedCommand)
      → IsStuck s.app
      → IsStuck (run_turns e out turns s).app
        × (execute_command e authorization signed (run_turns e out turns s)
            ≡ (err AgentError.lockdown, run_turns e out turns s))
  unfolding execute_command is_locked_down
  run_turns-IsStuck turns s authorization signed h =
      let stuck = (run_turns-Grows turns s).0.0 h in (stuck, ground arith)

  -- From a start of the agent over any tables, after any sequence of turns of its tasks, the lockdown
  -- flag is up exactly when a reason is recorded.
  pub run_turns-IsConsistent :
      (now : ℕ) (db : Db) (world : World) (turns : List TaskTurn)
      → IsConsistent (run_turns e out turns (boot e out now db world)).app
  unfolding boot initial Stays
  run_turns-IsConsistent now db world turns =
      let fresh : Agent World = record { app = initial now; db = db; world = world } in
      let loaded = (reload_nftables e fresh).1 in
      let grown =
        Grows-trans e.crypto fresh loaded (recover_containers e loaded).1 (reload-Stays e fresh)
          (recover-Stays e loaded) in
      (run_turns-Grows turns (boot e out now db world)).0.1 (grown.0.1 (ground arith))

-- ===== src/Daemon/Turns.antt =====
-- The tasks that src/main.rs starts, over one state: the server, the socket to the dashboard, the
-- watchdogs, the checks, the synchronisation and the updaters, one turn of one of them at a time.
use panel_agent.Common.{ℕ, List, [], ◌∷◌, Text, Option}
use panel_agent.State.{initial, heartbeat_watchdog, pg_watchdog}
use panel_agent.Runtime.{
  Env, Agent, Db, AuditRow, SignedCommand, AgentError, M, ◌>>=◌, ask, modify_app,
}
use panel_agent.Runtime.Web.{Web}
use panel_agent.Metrics.Sample.{Gauges}
use panel_agent.Metrics.Stream.{MetricsSocket}
use panel_agent.Nftables.{check_once}
use panel_agent.Conflict.{check_and_remove}
use panel_agent.NginxWatchdog.{check_nginx}
use panel_agent.Sync.{sync_batch}
use panel_agent.Update.{fallback_round, perform_update, startup_health_guard}
use panel_agent.Startup.{reload_nftables, recover_containers, cleanup_nonces}
use panel_agent.WsClient.{Socket, connect_once}
use panel_agent.Daemon.Routes.{Request, handle_request}

-- What the program is linked with.
pub record Outside (e : Env) : Type 1 where
  pub web : Web e.machine.World e.json.Value
  pub gauges : Gauges e.machine
  pub stream : MetricsSocket e gauges.floats gauges.probe
  pub socket : Socket e.machine.World
  pub decode_base64 : Text → Option Text
  pub encode_rows : List AuditRow → Text
  pub format_uuid : Text → Text
  pub parse_signed : e.json.Value → Option SignedCommand
  pub arch : Text
  pub io_error : Text

-- One turn of a task. An update is one that `update.self` has started.
pub data TaskTurn : Type 0 where
  http : Request → TaskTurn
  ws_turn : (turns : ℕ) (url : Text) (backoff : ℕ) → TaskTurn
  heartbeat_tick pg_tick nonce_tick divergence_tick conflict_tick nginx_tick : TaskTurn
  sync_tick : (url token : Text) → TaskTurn
  fallback_tick guard_polls : TaskTurn
  update : (version download_url sig_url : Text) → TaskTurn

module _ (e : Env) (out : Outside e) where
  open e use {machine, json}
  open machine use {World, instant, query_fails}

  -- The body of the heartbeat watchdog's loop.
  unfoldable pub heartbeat_turn : M World AgentError (Unit {0})
  unfolding heartbeat_watchdog
  heartbeat_turn = do now ← ask instant; modify_app (heartbeat_watchdog now)

  -- The body of the PostgreSQL watchdog's loop.
  unfoldable pub pg_turn : M World AgentError (Unit {0})
  unfolding pg_watchdog
  pg_turn = do failed ← ask query_fails; modify_app (pg_watchdog failed)

  -- The state after a turn, whether it ends well, with an error that is logged, or in a panic, that
  -- ends no more than the task.
  unfoldable pub run_turn : TaskTurn → Agent World → Agent World
  unfolding handle_request connect_once heartbeat_turn pg_turn cleanup_nonces check_once
      check_and_remove check_nginx sync_batch fallback_round startup_health_guard perform_update
  run_turn (TaskTurn.http r) s =
      (handle_request e out.gauges.floats out.gauges.probe out.stream r s).1
  run_turn (TaskTurn.ws_turn turns url backoff) s =
      (connect_once e out.format_uuid out.arch out.socket out.gauges out.parse_signed turns url
        backoff s).1
  run_turn TaskTurn.heartbeat_tick s = (heartbeat_turn s).1
  run_turn TaskTurn.pg_tick s = (pg_turn s).1
  run_turn TaskTurn.nonce_tick s = (cleanup_nonces e s).1
  run_turn TaskTurn.divergence_tick s = (check_once e s).1
  run_turn TaskTurn.conflict_tick s = (check_and_remove e out.io_error {E = AgentError} s).1
  run_turn TaskTurn.nginx_tick s = (check_nginx e out.web AgentError s).1
  run_turn (TaskTurn.sync_tick url token) s = (sync_batch e out.encode_rows url token s).1
  run_turn TaskTurn.fallback_tick s =
      (fallback_round e out.web out.decode_base64 {E = AgentError} out.arch s).1
  run_turn TaskTurn.guard_polls s = (startup_health_guard e out.web AgentError s).1
  run_turn (TaskTurn.update version download_url sig_url) s =
      (perform_update e out.web out.decode_base64 version download_url sig_url s).1

  unfoldable pub run_turns : List TaskTurn → Agent World → Agent World
  unfolding run_turn
  run_turns [] s = s
  run_turns (turn ∷ turns) s = run_turns turns (run_turn turn s)

  -- The state as `main` hands it to the tasks: the fresh one, after the reload and the recovery.
  unfoldable pub boot : ℕ → Db → World → Agent World
  unfolding initial reload_nftables recover_containers
  boot now db world =
      (recover_containers e
        (reload_nftables e (record { app = initial now; db = db; world = world })).1).1

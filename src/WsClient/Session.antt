-- ===== src/WsClient/Session.antt =====
-- `run_session` and `run_ws_client`, up to a given turn of their endless loops.
use panel_agent.Common.{
  ℕ, zero, suc, ◌*◌, Bool, true, false, Option, none, some, [], ◌∷◌, Text, txt, ltb, trim_end,
  strip_prefix, concat, if◌then◌else◌,
}
use panel_agent.Runtime.{
  Env, SignedCommand, AgentError, Outcome, ok, err, panicked, catch, M, ◌>>=◌, ◌>>◌, pure, ask,
  tell, modify_app, branch,
}
use panel_agent.Metrics.Sample.{SystemMetrics, Gauges, sample_system, sample_containers}
use panel_agent.WsClient.Message.{Frame, Event, Socket, heartbeat_payload, handle_message}

abbrev pub backoff_base : ℕ
backoff_base = 5

abbrev pub backoff_max : ℕ
backoff_max = 300

abbrev host_of : Text → Text
host_of base = elim (strip_prefix (txt "http://") base) [ none ↦ base | some host ↦ host ]

abbrev ws_path : Text → Text → Text → Text → Text
ws_path scheme host agent_id token =
    concat (scheme ∷ host ∷ txt "/agents/" ∷ agent_id ∷ txt "/ws?token=" ∷ token ∷ [])

-- The URL of the socket, from that of the dashboard.
unfoldable pub ws_url_of : Text → Text → Text → Text
unfolding txt trim_end strip_prefix concat
ws_url_of dashboard_url agent_id token =
    elim (strip_prefix (txt "https://") (trim_end b'/' dashboard_url)) [
      | some host ↦ ws_path (txt "wss://") host agent_id token
      | none ↦ ws_path (txt "ws://") (host_of (trim_end b'/' dashboard_url)) agent_id token
    ]

-- `(backoff * 2).min(BACKOFF_MAX)`
unfoldable pub next_backoff : ℕ → ℕ
next_backoff backoff = if ltb (backoff * 2) backoff_max then backoff * 2 else backoff_max

module _ (e : Env) (format_uuid : Text → Text) (arch : Text) (socket : Socket e.machine.World)
    (gauges : Gauges e.machine) (parse_signed : e.json.Value → Option SignedCommand) where
  open e use {machine, config}
  open machine use {World, clock}
  open socket use {connect, next, send, send_pong, sleep}
  open gauges use {floats, probe, encode_system, encode_containers}

  unfoldable pub record_dashboard_contact : M World AgentError (Unit {0})
  record_dashboard_contact = do
    now ← ask clock
    modify_app (λ a. record a { last_dashboard_contact = now })

  abbrev pub send_if : Option Frame → M World AgentError Bool
  send_if none = pure true
  send_if (some frame) = ask (send frame)

  -- `catch` has passed a panic on.
  abbrev pub send_metrics :
      Outcome AgentError (SystemMetrics machine floats probe) → M World AgentError Bool
  send_metrics (ok m) = ask (send (Frame.metrics (encode_system m)))
  send_metrics (err x) = pure true
  send_metrics panicked = pure true

  -- One arm of the `select!`: whether the session goes on.
  unfoldable pub on_event : Event → M World AgentError Bool
  unfolding record_dashboard_contact handle_message heartbeat_payload sample_system
      sample_containers
  on_event Event.hb_tick = do hb ← heartbeat_payload e format_uuid socket arch; ask (send hb)
  on_event Event.metrics_tick = do m ← catch (sample_system machine floats probe); send_metrics m
  on_event Event.container_tick = do
    m ← sample_containers machine floats probe
    ask (send (Frame.container_metrics (encode_containers m)))
  on_event (Event.text_message text) = do
    record_dashboard_contact
    reply ← handle_message e parse_signed text
    send_if reply
  on_event (Event.ping_message payload) = ask (send_pong payload)
  on_event Event.closed = pure false
  on_event Event.broken = pure false
  on_event Event.other_message = pure true

  -- The session, for at most so many events.
  unfoldable pub run_session : ℕ → M World AgentError (Unit {0})
  unfolding on_event
  run_session zero = pure tt
  run_session (suc n) = do
    event ← ask next
    more ← on_event event
    branch more (run_session n) (pure tt)

  -- The wait after an attempt: a connection resets it.
  unfoldable pub backoff_after : Bool → ℕ → ℕ
  backoff_after connected backoff = if connected then backoff_base else backoff

  -- One turn of the loop, with the back-off that it begins with: the back-off of the next turn.
  unfoldable pub connect_once : ℕ → Text → ℕ → M World AgentError ℕ
  unfolding record_dashboard_contact run_session backoff_after next_backoff
  connect_once events ws_url backoff = do
    connected ← ask (connect ws_url)
    branch connected (do record_dashboard_contact; run_session events) (pure tt)
    tell (sleep (backoff_after connected backoff))
    pure (next_backoff (backoff_after connected backoff))

  unfoldable pub connect_loop : ℕ → ℕ → Text → ℕ → M World AgentError ℕ
  unfolding connect_once
  connect_loop zero events ws_url backoff = pure backoff
  connect_loop (suc n) events ws_url backoff = do
    backoff' ← connect_once events ws_url backoff
    connect_loop n events ws_url backoff'

  -- The client for so many turns, with so many events in each session: the next back-off.
  unfoldable pub run_ws_client : ℕ → ℕ → M World AgentError (Option ℕ)
  unfolding connect_loop ws_url_of
  run_ws_client n events = elim config.dashboard_url [
    | none ↦ pure none
    | some dashboard_url ↦ elim config.sync_token [
      | none ↦ pure none
      | some token ↦ do
        backoff ←
            connect_loop n events (ws_url_of dashboard_url (format_uuid config.agent_id) token)
              backoff_base
        pure (some backoff)
    ]
  ]

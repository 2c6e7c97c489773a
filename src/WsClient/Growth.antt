-- ===== src/WsClient/Growth.antt =====
-- The connection to the dashboard, and the lockdown and the audit log.
use panel_agent.Common.{ℕ, zero, suc, Option, none, some, Text, txt}
use panel_agent.Runtime.{Env, SignedCommand, AgentError, Answer, Outcome, ok, err, panicked, pure}
use panel_agent.Runtime.Growth.{Stays, stays, option-Stays}
use panel_agent.Auth.{get_str}
use panel_agent.Handlers.System.Growth.{run-Stays}
use panel_agent.Metrics.Sample.{Gauges, SystemMetrics}
use panel_agent.Metrics.Calm.{system-Keeps, containers-Keeps}
use panel_agent.WsClient.Message.{
  Frame, Event, Socket, respond, gate_command, on_command, on_type, req_id, handle_message,
  heartbeat_payload,
}
use panel_agent.WsClient.Session.{
  record_dashboard_contact, send_if, send_metrics, on_event, run_session, connect_once,
}

module _ (e : Env) (parse_signed : e.json.Value → Option SignedCommand) where
  open e use {json, machine}
  open json use {Value}

  respond-Stays : (id : Text) (r : Outcome AgentError Answer) → Stays e.crypto (respond e id r)
  unfolding respond
  respond-Stays id (ok body) = search stays
  respond-Stays id (err x) = search stays
  respond-Stays id panicked = search stays

  gate-Stays : (id : Text) (signed : SignedCommand) → Stays e.crypto (gate_command e id signed)
  unfolding gate_command
  gate-Stays id signed = search (stays, run-Stays, respond-Stays) depth 20

  command-Stays : (msg : Value) → Stays e.crypto (on_command e parse_signed msg)
  unfolding on_command txt
  command-Stays msg =
      option-Stays e.crypto (json.get (txt "payload") msg) (pure none) _ (search stays) (λ payload.
        option-Stays e.crypto (parse_signed payload) (pure none) (gate_command e (req_id e msg))
          (search stays) (gate-Stays (req_id e msg)))

  type-Stays : (o : Option Text) (msg : Value) → Stays e.crypto (on_type e parse_signed o msg)
  type-Stays none msg = search stays
  type-Stays (some t) msg = search (stays, command-Stays) depth 20

  pub message-Stays : (text : Text) → Stays e.crypto (handle_message e parse_signed text)
  unfolding handle_message txt
  message-Stays text =
      option-Stays e.crypto (json.from_slice text) (pure none) _ (search stays)
        (λ msg. type-Stays (get_str json (txt "type") msg) msg)

  module _ (format_uuid : Text → Text) (arch : Text) (socket : Socket machine.World)
      (gauges : Gauges machine) where
    contact-Stays :
        Stays e.crypto (record_dashboard_contact e format_uuid arch socket gauges parse_signed)
    unfolding record_dashboard_contact
    contact-Stays = search stays

    if-Stays :
        (o : Option Frame)
        → Stays e.crypto (send_if e format_uuid arch socket gauges parse_signed o)
    if-Stays none = search stays
    if-Stays (some frame) = search stays

    metrics-Stays :
        (r : Outcome AgentError (SystemMetrics machine gauges.floats gauges.probe))
        → Stays e.crypto (send_metrics e format_uuid arch socket gauges parse_signed r)
    metrics-Stays (ok m) = search stays
    metrics-Stays (err x) = search stays
    metrics-Stays panicked = search stays

    event-Stays :
        (event : Event)
        → Stays e.crypto (on_event e format_uuid arch socket gauges parse_signed event)
    unfolding on_event heartbeat_payload
    event-Stays Event.hb_tick = search stays depth 20
    event-Stays Event.metrics_tick =
        search (stays, system-Keeps machine gauges.floats gauges.probe, metrics-Stays) depth 20
    event-Stays Event.container_tick =
        search (stays, containers-Keeps machine gauges.floats gauges.probe) depth 20
    event-Stays (Event.text_message text) =
        search (stays, contact-Stays, message-Stays, if-Stays) depth 20
    event-Stays (Event.ping_message payload) = search stays
    event-Stays Event.closed = search stays
    event-Stays Event.broken = search stays
    event-Stays Event.other_message = search stays

    pub session-Stays :
        (n : ℕ) → Stays e.crypto (run_session e format_uuid arch socket gauges parse_signed n)
    unfolding run_session
    session-Stays zero = search stays
    session-Stays (suc n) = search (stays, event-Stays, session-Stays n) depth 20

    pub once-Stays :
        (events : ℕ) (url : Text) (backoff : ℕ)
        → Stays e.crypto
            (connect_once e format_uuid arch socket gauges parse_signed events url backoff)
    unfolding connect_once
    once-Stays events url backoff = search (stays, contact-Stays, session-Stays) depth 20

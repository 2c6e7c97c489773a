-- ===== src/Metrics/Growth.antt =====
-- The stream of metrics, and the lockdown and the audit log.
use panel_agent.Common.{ℕ, zero, suc, Option, none, some, Text}
use panel_agent.Runtime.{Env, AgentError, M, Outcome, ok, err, panicked}
use panel_agent.Runtime.Growth.{Stays, stays}
use panel_agent.Metrics.Calm.{system-Keeps, containers-Keeps}
use panel_agent.Metrics.Sample.{Floats, Probe, SystemMetrics}
use panel_agent.Metrics.Stream.{
  MetricsSocket, container_turn, on_sample, stream_turn, on_turn, stream_from, stream_metrics,
  metrics_ws,
}

module _ (e : Env) (floats : Floats) (probe : Probe e.machine.World)
    (socket : MetricsSocket e floats probe) where
  open e use {machine}

  turn-Stays : (last : ℕ) → Stays e.crypto (container_turn e floats probe socket last)
  unfolding container_turn
  turn-Stays last = search (stays, containers-Keeps machine floats probe) depth 20

  sample-Stays :
      (last : ℕ) (r : Outcome AgentError (SystemMetrics machine floats probe))
      → Stays e.crypto (on_sample e floats probe socket last r)
  sample-Stays last (ok x) = search (stays, turn-Stays) depth 20
  sample-Stays last (err x) = search stays
  sample-Stays last panicked = search stays

  stream-Stays : (last : ℕ) → Stays e.crypto (stream_turn e floats probe socket last)
  unfolding stream_turn
  stream-Stays last = search (stays, system-Keeps machine floats probe, sample-Stays) depth 20

  next-Stays :
      (next : Option ℕ) (loop : ℕ → M machine.World AgentError (Unit {0}))
      → ((last : ℕ) → Stays e.crypto (loop last))
      → Stays e.crypto (on_turn e floats probe socket next loop)
  next-Stays none loop h = search stays
  next-Stays (some last) loop h = search (stays, h) depth 20

  from-Stays : (turns last : ℕ) → Stays e.crypto (stream_from e floats probe socket turns last)
  unfolding stream_from
  from-Stays zero last = search stays
  from-Stays (suc n) last = search (stays, stream-Stays, next-Stays, from-Stays n) depth 20

  pub metrics-Stays :
      (turns : ℕ) (authorization : Option Text)
      → Stays e.crypto (metrics_ws e floats probe socket turns authorization)
  unfolding metrics_ws stream_metrics
  metrics-Stays turns authorization = search (stays, from-Stays) depth 20

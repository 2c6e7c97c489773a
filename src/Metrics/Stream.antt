-- ===== src/Metrics/Stream.antt =====
-- src/handlers/metrics.rs: the socket that metrics are streamed over. Its sends and the elapsed time
-- are parameters.
use panel_agent.Common.{ℕ, zero, suc, ◌-◌, Bool, not, Option, none, some, Text, leb, if◌then◌else◌}
use panel_agent.Runtime.{
  Env, AgentError, Outcome, ok, err, panicked, catch, M, ◌>>=◌, ◌>>◌, pure, ask, tell, refuse_if,
  branch,
}
use panel_agent.Runtime.Ends.{Ends, ends, Ends-Runs}
use panel_agent.Auth.{verify_bearer}
use panel_agent.Handlers.System.{token_of}
use panel_agent.Metrics.Sample.{
  Floats, Probe, SystemMetrics, ContainerMetrics, sample_system, sample_containers,
}
use panel_agent.Metrics.Calm.{system-Ends, containers-Ends}

module _ (e : Env) (floats : Floats) (probe : Probe e.machine.World) where
  open e use {machine, config}
  open machine use {World}

  -- The socket of axum, with the encoding by serde_json: whether a send succeeds.
  pub record MetricsSocket : Type 0 where
    pub send_system : SystemMetrics machine floats probe → World → Bool × World
    pub send_containers : ContainerMetrics machine floats probe → World → Bool × World

  module _ (socket : MetricsSocket) where
    open socket use {send_system, send_containers}
    open machine use {instant}

    -- Ten seconds ago, if the clock goes so far back.
    abbrev first_container : ℕ → ℕ
    first_container now = if leb 10 now then now - 10 else now

    -- The containers every ten seconds: the time of the last, or `none` for a `break`.
    unfoldable pub container_turn : ℕ → M World AgentError (Option ℕ)
    unfolding sample_containers
    container_turn last_container = do
      now ← ask instant
      branch (leb 10 (now - last_container))
          (do
            containers ← sample_containers machine floats probe
            sent ← ask (send_containers containers)
            branch sent (do sent_at ← ask instant; pure (some sent_at)) (pure none))
          (pure (some last_container))

    -- `catch` has passed a panic on.
    abbrev pub on_sample :
        ℕ → Outcome AgentError (SystemMetrics machine floats probe) → M World AgentError (Option ℕ)
    on_sample last_container (ok m) = do
      sent ← ask (send_system m)
      branch sent (container_turn last_container) (pure none)
    on_sample last_container (err x) = pure none
    on_sample last_container panicked = pure none

    -- One turn of the loop, before its sleep.
    unfoldable pub stream_turn : ℕ → M World AgentError (Option ℕ)
    unfolding sample_system
    stream_turn last_container = do
      sample ← catch (sample_system machine floats probe)
      on_sample last_container sample

    abbrev pub on_turn :
        Option ℕ → (ℕ → M World AgentError (Unit {0})) → M World AgentError (Unit {0})
    on_turn none loop = pure tt
    on_turn (some last_container) loop = do tell (probe.sleep_ms 5000); loop last_container

    -- The loop, for at most so many turns.
    unfoldable pub stream_from : ℕ → ℕ → M World AgentError (Unit {0})
    unfolding stream_turn
    stream_from zero last_container = pure tt
    stream_from (suc n) last_container = do
      next ← stream_turn last_container
      on_turn next (stream_from n)

    unfoldable pub stream_metrics : ℕ → M World AgentError (Unit {0})
    unfolding stream_from
    stream_metrics turns = do now ← ask instant; stream_from turns (first_container now)

    -- The handler, with the stream that an upgrade starts.
    unfoldable pub metrics_ws : ℕ → Option Text → M World AgentError (Unit {0})
    unfolding stream_metrics
    metrics_ws turns authorization = do
      refuse_if (not (verify_bearer (token_of e authorization) config.internal_token))
          AgentError.unauthorized
      stream_metrics turns

    turn-Ends : (last_container : ℕ) → Ends (container_turn last_container)
    unfolding container_turn
    turn-Ends last_container = search (ends, containers-Ends machine floats probe) depth 20

    sample-Ends :
        (last_container : ℕ) (r : Outcome AgentError (SystemMetrics machine floats probe))
        → Ends (on_sample last_container r)
    sample-Ends last_container (ok x) = search (ends, turn-Ends) depth 20
    sample-Ends last_container (err x) = search ends
    sample-Ends last_container panicked = search ends

    stream-Ends : (last_container : ℕ) → Ends (stream_turn last_container)
    unfolding stream_turn
    stream-Ends last_container =
        search (ends, sample-Ends, Ends-Runs, system-Ends machine floats probe) depth 20

    next-Ends :
        (next : Option ℕ) (loop : ℕ → M World AgentError (Unit {0}))
        → ((last_container : ℕ) → Ends (loop last_container))
        → Ends (on_turn next loop)
    next-Ends none loop h = search ends
    next-Ends (some last_container) loop h = search (ends, h) depth 20

    from-Ends : (turns last_container : ℕ) → Ends (stream_from turns last_container)
    unfolding stream_from
    from-Ends zero last_container = search ends
    from-Ends (suc n) last_container = search (ends, stream-Ends, next-Ends, from-Ends n) depth 20

    pub metrics-Ends : (turns : ℕ) → Ends (stream_metrics turns)
    unfolding stream_metrics
    metrics-Ends turns = search (ends, from-Ends)

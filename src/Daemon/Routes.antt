-- ===== src/Daemon/Routes.antt =====
-- The router of src/main.rs. axum finds the handler by path and method, and reads the body of a
-- command as JSON before the handler runs; a failed reading and an unknown route are answered by it.
use panel_agent.Common.{ℕ, Bool, true, false, Option, none, some, Text, txt, text_eq, if◌then◌else◌}
use panel_agent.Runtime.{Env, SignedCommand, AgentError, Answer, M, ◌>>=◌, ◌>>◌, pure, branch}
use panel_agent.Handlers.System.{HeartbeatReply, execute_command, heartbeat_handler}
use panel_agent.Metrics.Sample.{Floats, Probe}
use panel_agent.Metrics.Stream.{MetricsSocket, metrics_ws}

pub data Method : Type 0 where
  get head post other : Method

-- The body, where it reads as a signed command, and whether the request asks for a WebSocket. `turns`
-- is how long a stream of metrics goes on.
pub record Request : Type 0 where
  pub method : Method
  pub path : Text
  pub authorization : Option Text
  pub body : Option SignedCommand
  pub upgrades : Bool
  pub turns : ℕ

pub data Route : Type 0 where
  health cmd metrics heartbeat : Route

pub data HttpReply : Type 0 where
  healthy upgraded : HttpReply
  answered : Answer → HttpReply
  acknowledged : HeartbeatReply → HttpReply
  bad_body bad_upgrade not_found method_not_allowed : HttpReply

-- `get(…)` serves HEAD too.
abbrev is_get : Method → Bool
is_get Method.get = true
is_get Method.head = true
is_get Method.post = false
is_get Method.other = false

abbrev is_post : Method → Bool
is_post Method.get = false
is_post Method.head = false
is_post Method.post = true
is_post Method.other = false

abbrev pub allows : Route → Method → Bool
allows Route.health m = is_get m
allows Route.cmd m = is_post m
allows Route.metrics m = is_get m
allows Route.heartbeat m = is_post m

-- The table of the router.
unfoldable pub route_of : Text → Option Route
unfolding txt text_eq
route_of path =
    if text_eq path (txt "/health")
    then some Route.health
    else if text_eq path (txt "/cmd")
    then some Route.cmd
    else if text_eq path (txt "/metrics/ws")
    then some Route.metrics
    else if text_eq path (txt "/heartbeat")
    then some Route.heartbeat
    else none

module _ (e : Env) (floats : Floats) (probe : Probe e.machine.World)
    (stream : MetricsSocket e floats probe) where
  open e use {machine}
  open machine use {World}

  abbrev pub on_cmd : Option Text → Option SignedCommand → M World AgentError HttpReply
  on_cmd authorization none = pure HttpReply.bad_body
  on_cmd authorization (some signed) = do
    answer ← execute_command e authorization signed
    pure (HttpReply.answered answer)

  abbrev pub on_heartbeat : Option SignedCommand → M World AgentError HttpReply
  on_heartbeat none = pure HttpReply.bad_body
  on_heartbeat (some signed) = do
    reply ← heartbeat_handler e signed
    pure (HttpReply.acknowledged reply)

  abbrev pub stream_to : Request → M World AgentError HttpReply
  stream_to r = do metrics_ws e floats probe stream r.turns r.authorization; pure HttpReply.upgraded

  unfoldable pub serve : Route → Request → M World AgentError HttpReply
  unfolding execute_command heartbeat_handler metrics_ws
  serve Route.health r = pure HttpReply.healthy
  serve Route.cmd r = on_cmd r.authorization r.body
  serve Route.metrics r = branch r.upgrades (stream_to r) (pure HttpReply.bad_upgrade)
  serve Route.heartbeat r = on_heartbeat r.body

  abbrev pub on_route : Option Route → Request → M World AgentError HttpReply
  on_route none r = pure HttpReply.not_found
  on_route (some route) r =
      if allows route r.method then serve route r else pure HttpReply.method_not_allowed

  -- A request to the router.
  unfoldable pub handle_request : Request → M World AgentError HttpReply
  unfolding route_of serve
  handle_request r = on_route (route_of r.path) r

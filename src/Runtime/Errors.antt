-- ===== src/Runtime/Errors.antt =====
-- src/error.rs. The text inside an internal error is only logged, and is left out.
use panel_agent.Common.{ℕ, Text, txt, ◌++◌}

pub data AgentError : Type 0 where
  unauthorized : AgentError
  forbidden : Text → AgentError
  bad_request : Text → AgentError
  lockdown : AgentError
  internal : AgentError

-- `to_string`, from the `#[error]` attributes
unfoldable pub to_string : AgentError → Text
unfolding txt
to_string AgentError.unauthorized = txt "unauthorized"
to_string (AgentError.forbidden why) = txt "forbidden: " ++ why
to_string (AgentError.bad_request why) = txt "bad request: " ++ why
to_string AgentError.lockdown = txt "lockdown active"
to_string AgentError.internal = txt "internal error"

-- The status code of `into_response`.
unfoldable pub status_of : AgentError → ℕ
status_of AgentError.unauthorized = 401
status_of (AgentError.forbidden _) = 403
status_of (AgentError.bad_request _) = 400
status_of AgentError.lockdown = 503
status_of AgentError.internal = 500

-- How a call ends, for a type of errors.
pub data Outcome (E A : Type 0) : Type 0 where
  ok : A → Outcome E A
  err : E → Outcome E A
  panicked : Outcome E A

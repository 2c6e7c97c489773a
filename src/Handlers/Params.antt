-- ===== src/Handlers/Params.antt =====
-- `require_str`, `validate_id` and `require_valid_id` of src/handlers/containers.rs, and the tests
-- of the permission that the handlers begin with.
pub mod Ids
use panel_agent.Common.{
  ℕ, Bool, true, false, not, ◌&&◌, ◌||◌, Option, none, some, List, [], ◌∷◌, Text, txt, length, all,
  ltb, leb, ◌==◌, if◌then◌else◌,
}
use panel_agent.Runtime.{
  Json, AgentError, Outcome, ok, err, panicked, M, ◌>>=◌, pure, refuse_if, or_throw, from_outcome,
  PermissionLevel, perm_eq, perm_lt,
}
use panel_agent.Auth.{get_str}

abbrev pub is_alphanumeric : ℕ → Bool
is_alphanumeric c = (leb 48 c && leb c 57) || ((leb 65 c && leb c 90) || (leb 97 c && leb c 122))

-- `is_ascii_alphanumeric() || '-' || '_'`: no byte of a character outside ASCII passes.
abbrev pub is_id_char : ℕ → Bool
is_id_char c = is_alphanumeric c || (c == b'-' || c == b'_')

unfoldable pub validate_id : Text → Text → Outcome AgentError (Unit {0})
validate_id value key =
    if length value == 0 || (ltb 128 (length value) || not (all is_id_char value))
    then err (AgentError.bad_request key)
    else ok tt

module _ {W : Type 0} (j : Json) where
  open j use {Value}

  unfoldable pub require_str : Value → Text → M W AgentError Text
  require_str cmd key = or_throw (get_str j key cmd) (AgentError.bad_request key)

  unfoldable pub require_valid_id : Value → Text → M W AgentError Text
  unfolding require_str
  require_valid_id cmd key = do
    val ← require_str cmd key
    _ ← from_outcome (validate_id val key)
    pure val

-- `if cmd.permission == PermissionLevel::Read { return Err(Forbidden(…)) }`
abbrev pub refuse_read : {W : Type 0} → PermissionLevel → Text → M W AgentError (Unit {0})
refuse_read p why = refuse_if (perm_eq p PermissionLevel.read) (AgentError.forbidden why)

-- `if cmd.permission < PermissionLevel::Write { … }`
abbrev pub refuse_below_write : {W : Type 0} → PermissionLevel → Text → M W AgentError (Unit {0})
refuse_below_write p why = refuse_if (perm_lt p PermissionLevel.write) (AgentError.forbidden why)

-- `if cmd.permission != PermissionLevel::Destructive { … }`
abbrev pub refuse_unless_destructive :
    {W : Type 0} → PermissionLevel → Text → M W AgentError (Unit {0})
refuse_unless_destructive p why =
    refuse_if (not (perm_eq p PermissionLevel.destructive)) (AgentError.forbidden why)

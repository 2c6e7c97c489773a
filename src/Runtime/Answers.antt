-- ===== src/Runtime/Answers.antt =====
-- The JSON objects that the handlers answer with, as `json!` writes them.
use panel_agent.Common.{ℕ, Bool, true, List, [], ◌∷◌, Text, txt}

pub data Field : Type 0 where
  flag : Bool → Field
  text : Text → Field
  number : ℕ → Field
  texts : List Text → Field
  objects : List (List (Text × Text)) → Field

pub record Answer : Type 0 where
  pub fields : List (Text × Field)

-- `json!({ "ok": true })`, with further fields
unfoldable pub answer_with : List (Text × Field) → Answer
answer_with fields = record { fields = (txt "ok", flag true) ∷ fields }

unfoldable pub answer_ok : Answer
unfolding answer_with
answer_ok = answer_with []

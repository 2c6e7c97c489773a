-- ===== src/Handlers/Params/Ids.antt =====
-- What a validated identifier is.
use panel_agent.Common.{
  ℕ, ◌≤◌, ◌≡◌, ◌↔◌, ◌⊎◌, true, [], ◌∷◌, Text, arith, length, all, All, all_sound,
}
use panel_agent.Runtime.{ok}
use panel_agent.Handlers.Params.{is_id_char, validate_id}

-- A letter, a digit, `-` or `_`.
abbrev pub IsIdChar : ℕ → Type 0
IsIdChar c =
    ((48 ≤ c) × (c ≤ 57))
    ⊎ (((65 ≤ c) × (c ≤ 90)) ⊎ (((97 ≤ c) × (c ≤ 122)) ⊎ ((c ≡ b'-') ⊎ (c ≡ b'_'))))

is_id_char_sound : (c : ℕ) → is_id_char c ≡ true → IsIdChar c
is_id_char_sound c h = ground arith

is_id_char_complete : (c : ℕ) → IsIdChar c → is_id_char c ≡ true
is_id_char_complete c h = ground arith

all_complete : (s : Text) → All IsIdChar s → all is_id_char s ≡ true
all_complete [] h = ground arith
all_complete (c ∷ s) h = ground (arith, is_id_char_complete c h.0, all_complete s h.1)

-- `validate_id` accepts exactly the texts of 1 to 128 bytes that are all letters, digits, `-` or
-- `_`.
pub validate_id_iff :
    (value key : Text)
    → (validate_id value key ≡ ok tt)
      ↔ ((1 ≤ length value) × (length value ≤ 128) × All IsIdChar value)
unfolding validate_id
validate_id_iff value key = (sound, complete)
  where
    sound :
        validate_id value key ≡ ok tt
        → (1 ≤ length value) × (length value ≤ 128) × All IsIdChar value
    sound h = (
      ground arith,
      ground arith,
      all_sound IsIdChar is_id_char is_id_char_sound value (ground arith),
    )

    complete :
        (1 ≤ length value) × (length value ≤ 128) × All IsIdChar value
        → validate_id value key ≡ ok tt
    complete h = ground (arith, all_complete value h.2)

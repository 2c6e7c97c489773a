-- ===== src/State/Rate.antt =====
-- The bounds that `check_cmd_rate` keeps.
use panel_agent.Common.{ℕ, ◌+◌, ◌^◌, ◌≤◌, ◌<◌, ◌≡◌, true, List, [], ◌∷◌, arith, All, if◌then◌else◌}
use native.Mathlib.Decide.{dec_lt}
use panel_agent.State.{AppState, check_cmd_rate}

-- How many of the checks made at the given times let the command through.
unfoldable pub accepted : List ℕ → AppState → ℕ
accepted [] s = 0
accepted (t ∷ ts) s = let (ok, s') = check_cmd_rate t s in (if ok then 1 else 0) + accepted ts s'

-- The count stays within the limit, and the window is one of a time before 2^64 - 60.
abbrev pub IsWithin : AppState → Type 0
IsWithin s = (s.window_count ≤ 100) × (s.window_start + 60 < 2 ^ 64)

-- One check within the window that is open keeps the window, and counts what it lets through.
check_open :
    (t : ℕ) (s : AppState)
    → IsWithin s
    → t < s.window_start + 60
    → ((check_cmd_rate t s).1.window_start ≡ s.window_start)
      × ((check_cmd_rate t s).1.window_count
          ≡ s.window_count + (if (check_cmd_rate t s).0 then 1 else 0))
      × ((check_cmd_rate t s).1.window_count ≤ 100)
unfolding check_cmd_rate
check_open t s w h = ground arith

check_closed :
    (t : ℕ) (s : AppState)
    → IsWithin s
    → s.window_start + 60 ≤ t
    → ((check_cmd_rate t s).0 ≡ true)
      × ((check_cmd_rate t s).1.window_start ≡ t)
      × ((check_cmd_rate t s).1.window_count ≡ 1)
unfolding check_cmd_rate
check_closed t s w h = ground arith

accepted_before :
    (end : ℕ) (ts : List ℕ) (s : AppState)
    → IsWithin s
    → end ≤ s.window_start + 60
    → All (λ t. t < end) ts
    → accepted ts s + s.window_count ≤ 100
unfolding accepted
accepted_before end [] s w e h = omega arith
accepted_before end (t ∷ ts) s w e h =
    let (same, counted, bound) = check_open t s w (omega arith) in
    let rest =
      accepted_before end ts (check_cmd_rate t s).1 (bound, omega arith) (omega arith) h.1 in
    omega arith

-- While the window that is open lasts, the checks let through no more than what is left of 100.
pub accepted_open :
    (ts : List ℕ) (s : AppState)
    → IsWithin s
    → All (λ t. t < s.window_start + 60) ts
    → accepted ts s + s.window_count ≤ 100
accepted_open ts s w h = accepted_before (s.window_start + 60) ts s w (omega arith) h

-- In any span of less than a minute, however the clock moves inside it, the checks let through at
-- most 200 commands: the rest of one window and the whole of another.
pub accepted_span :
    (a : ℕ) (ts : List ℕ) (s : AppState)
    → a + 120 < 2 ^ 64
    → IsWithin s
    → All (λ t. (a ≤ t) × (t < a + 60)) ts
    → accepted ts s + s.window_count ≤ 200
unfolding accepted
accepted_span a [] s b w h = omega arith
accepted_span a (t ∷ ts) s b w h = elim (dec_lt t (s.window_start + 60)) [
  | yes open_window ↦
      let (same, counted, bound) = check_open t s w open_window in
      let rest = accepted_span a ts (check_cmd_rate t s).1 b (bound, omega arith) h.1 in omega arith
  | no closed ↦
      let (passed, moved, one) = check_closed t s w (omega arith) in
      let rest =
        accepted_before (a + 60) ts (check_cmd_rate t s).1 (omega arith, omega arith) (omega arith)
          (below ts h.1) in
      rw passed (omega arith)
]
  where
    below : (ts : List ℕ) → All (λ t. (a ≤ t) × (t < a + 60)) ts → All (λ t. t < a + 60) ts
    below [] h = tt
    below (t ∷ ts) h = (h.0.1, below ts h.1)

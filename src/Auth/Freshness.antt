-- ===== src/Auth/Freshness.antt =====
-- What the timestamp test of `verify_command` accepts.
use panel_agent.Common.{ℕ, ◌+◌, ◌^◌, ◌≤◌, ◌<◌, ◌≡◌, ◌↔◌, ◌⊎◌, false, arith}
use panel_agent.Auth.{is_stale, skew_of}

-- For a clock between 31 seconds after the epoch and 2^62, a timestamp passes exactly when it is
-- within 30 seconds of the clock, or when it is the clock less 2^63, where the subtraction and the
-- absolute value of an i64 both wrap.
pub fresh_iff :
    (now timestamp : ℕ)
    → 31 ≤ now
    → now < 2 ^ 62
    → timestamp < 2 ^ 64
    → (is_stale (skew_of now timestamp) ≡ false)
      ↔ ((timestamp ≤ now + 30) × (now ≤ timestamp + 30) ⊎ (timestamp ≡ 2 ^ 63 + now))
unfolding is_stale skew_of
fresh_iff now timestamp a b c = ground arith

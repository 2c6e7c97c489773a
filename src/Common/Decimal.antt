-- ===== src/Common/Decimal.antt =====
-- A number as `{}` formats it.
use Prim.Native.Nat.{ℕ, zero, suc, ◌+◌, ◌/◌, ◌%◌}
use mathlib.Core.List.{[], ◌∷◌}
use panel_agent.Common.Tests.{ltb, if◌then◌else◌}
use panel_agent.Common.Texts.{Text}

unfoldable pub decimal_from : ℕ → ℕ → Text → Text
decimal_from zero n rest = rest
decimal_from (suc f) n rest =
    let shown = (48 + n % 10) ∷ rest in
    let more = decimal_from f (n / 10) shown in if ltb n 10 then shown else more

-- Twenty digits hold every u64.
unfoldable pub decimal : ℕ → Text
unfolding decimal_from
decimal n = decimal_from 20 n []

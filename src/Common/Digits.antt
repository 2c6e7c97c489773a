-- ===== src/Common/Digits.antt =====
-- Laws of numbers as `{}` formats them and as `parse` reads them, and of `splitn`.
use Prim.Native.Nat.{ℕ, zero, suc, ◌+◌, ◌*◌, ◌/◌, ◌%◌, ◌≤◌, ◌<◌, ◌^◌}
use mathlib.Core.Path.{subst, ◌≡◌, refl, ◌∙◌, ap}
use mathlib.Core.Logic.{inl, inr}
use mathlib.Core.Bool.{false}
use mathlib.Core.Option.{some}
use mathlib.Core.List.{[], ◌∷◌, ◌++◌}
use native.Mathlib.Nat.{pow-suc}
use native.Mathlib.Omega.{arith}
use panel_agent.Common.Tests.{ltb, ◌==◌, Bool-cases}
use panel_agent.Common.Lists.{All}
use panel_agent.Common.Texts.{Text}
use panel_agent.Common.Decimal.{decimal, decimal_from}
use panel_agent.Common.Parse.{digits_value, parse_uint, splitn, unsigned}

abbrev pub IsDigit : ℕ → Type 0
IsDigit c = (48 ≤ c) × (c ≤ 57)

decimal_from_digits :
    (f n : ℕ) (rest : Text) → All IsDigit rest → All IsDigit (decimal_from f n rest)
unfolding decimal_from
decimal_from_digits zero n rest h = h
decimal_from_digits (suc f) n rest h = elim (Bool-cases (ltb n 10)) [
  | inl small ↦ rw small ((omega arith, omega arith), h)
  | inr large ↦
      rw large
        (decimal_from_digits f (n / 10) ((48 + n % 10) ∷ rest) ((omega arith, omega arith), h))
]

decimal_from_cons :
    (f n : ℕ) (rest : Text) → (c : ℕ) × ((t : Text) × (decimal_from (suc f) n rest ≡ c ∷ t))
unfolding decimal_from
decimal_from_cons zero n rest = (48 + n % 10, (rest, ground arith))
decimal_from_cons (suc f) n rest = elim (Bool-cases (ltb n 10)) [
  | inl small ↦ (48 + n % 10, (rest, rw small refl))
  | inr large ↦
      let (c, (t, e)) = decimal_from_cons f (n / 10) ((48 + n % 10) ∷ rest) in (c, (t, rw large e))
]

digits_value-digit :
    (acc d : ℕ) (rest : Text)
    → d < 10
    → digits_value acc ((48 + d) ∷ rest) ≡ digits_value (acc * 10 + d) rest
unfolding digits_value
digits_value-digit acc d rest h = ground arith

-- What `parse` reads of the digits is the number, in front of what follows.
digits_value-decimal_from :
    (f n : ℕ) (rest : Text)
    → n < 10 ^ f
    → digits_value 0 (decimal_from f n rest) ≡ digits_value n rest
unfolding decimal_from
digits_value-decimal_from zero n rest h = ap (λ m. digits_value m rest) (omega arith)
digits_value-decimal_from (suc f) n rest h = elim (Bool-cases (ltb n 10)) [
  | inl small ↦ rw small (
      digits_value-digit 0 (n % 10) rest (omega arith)
      ∙ ap (λ m. digits_value m rest) (ground arith))
  | inr large ↦ rw large (
      digits_value-decimal_from f (n / 10) ((48 + n % 10) ∷ rest) (omega (arith, pow-suc 10 f))
      ∙ digits_value-digit (n / 10) (n % 10) rest (omega arith)
      ∙ ap (λ m. digits_value m rest) (omega arith))
]

-- The digits of a number: at least one, and no other character.
pub decimal-IsDigit :
    (n : ℕ) → (c : ℕ) × ((t : Text) × ((decimal n ≡ c ∷ t) × (IsDigit c × All IsDigit t)))
unfolding decimal
decimal-IsDigit n =
    let (c, (t, e)) = decimal_from_cons 19 n [] in
    let digits : All IsDigit (c ∷ t) = subst (All IsDigit) e (decimal_from_digits 20 n [] tt) in
    (c, (t, (e, digits)))

parse_digits :
    (limit n c : ℕ) (t : Text)
    → IsDigit c
    → digits_value 0 (c ∷ t) ≡ some n
    → n < limit
    → parse_uint limit (c ∷ t) ≡ some n
unfolding parse_uint unsigned
parse_digits limit n c t d e h = ground arith

-- `parse` reads back what `{}` wrote, if the type holds it.
pub parse_uint-decimal :
    (limit n : ℕ) → n < limit → n < 10 ^ 20 → parse_uint limit (decimal n) ≡ some n
unfolding decimal digits_value
parse_uint-decimal limit n h small =
    let (c, (t, (e, (d, _)))) = decimal-IsDigit n in
    rw e (
      parse_digits limit n c t d
        (subst (λ s. digits_value 0 s ≡ some n) e (digits_value-decimal_from 20 n [] small)) h)

-- A part without the separator is cut off whole.
pub splitn-part :
    (n d : ℕ) (p s : Text)
    → All (λ c. (c == d) ≡ false) p
    → splitn (suc n) d (p ++ d ∷ s) ≡ p ∷ splitn n d s
unfolding splitn
splitn-part n d [] s h = ground arith
splitn-part n d (c ∷ p) s h = ground (arith, splitn-part n d p s h.1)

-- ===== src/Common/Parse.antt =====
-- Text functions of the standard library, on bytes. White space is that of ASCII.
use Prim.Native.Nat.{ℕ, zero, suc, ◌+◌, ◌-◌, ◌*◌}
use mathlib.Core.Bool.{Bool, true, false, ◌&&◌, ◌||◌}
use mathlib.Core.Option.{Option, none, some}
use mathlib.Core.List.{List, [], ◌∷◌, ◌++◌, reverse}
use panel_agent.Common.Tests.{ltb, leb, ◌==◌, if◌then◌else◌}
use panel_agent.Common.Texts.{Text}

-- The decimal value of digits after what is read so far.
unfoldable pub digits_value : ℕ → Text → Option ℕ
digits_value acc [] = some acc
digits_value acc (c ∷ s) =
    let rest = digits_value (acc * 10 + (c - 48)) s in if leb 48 c && leb c 57 then rest else none

abbrev bounded : ℕ → Option ℕ → Option ℕ
bounded limit none = none
bounded limit (some n) = if ltb n limit then some n else none

unfoldable pub unsigned : Text → Option ℕ
unfolding digits_value
unsigned [] = none
unsigned (c ∷ s) = digits_value 0 (c ∷ s)

-- `str::parse` of an unsigned type with this many values: digits, after at most one `+`.
unfoldable pub parse_uint : ℕ → Text → Option ℕ
unfolding unsigned
parse_uint limit [] = none
parse_uint limit (c ∷ s) = bounded limit (if c == b'+' then unsigned s else unsigned (c ∷ s))

abbrev cons_first : ℕ → List Text → List Text
cons_first c [] = (c ∷ []) ∷ []
cons_first c (p ∷ ps) = (c ∷ p) ∷ ps

-- `split(d)`: always at least one part.
unfoldable pub split_on : ℕ → Text → List Text
split_on d [] = [] ∷ []
split_on d (c ∷ s) = let rest = split_on d s in if c == d then [] ∷ rest else cons_first c rest

-- `splitn(n + 1, d)`: at most `n` cuts.
unfoldable pub splitn : ℕ → ℕ → Text → List Text
splitn zero d s = s ∷ []
splitn (suc n) d [] = [] ∷ []
splitn (suc n) d (c ∷ s) =
    let cut = splitn n d s in
    let on = splitn (suc n) d s in if c == d then [] ∷ cut else cons_first c on

abbrev drop_last_empty : List Text → List Text
drop_last_empty [] = []
drop_last_empty ([] ∷ []) = []
drop_last_empty (p ∷ ps) = p ∷ drop_last_empty ps

abbrev drop_cr : Text → Text
drop_cr [] = []
drop_cr (c ∷ []) = if c == 13 then [] else c ∷ []
drop_cr (c ∷ d ∷ s) = c ∷ drop_cr (d ∷ s)

abbrev each_line : List Text → List Text
each_line [] = []
each_line (p ∷ ps) = drop_cr p ∷ each_line ps

-- `lines()`: cut at `\n`, a last empty part and a `\r` before a cut dropped.
unfoldable pub lines : Text → List Text
unfolding split_on
lines s = each_line (drop_last_empty (split_on 10 s))

abbrev is_space : ℕ → Bool
is_space c = c == 32 || (leb 9 c && leb c 13)

unfoldable pub trim_start : Text → Text
trim_start [] = []
trim_start (c ∷ s) = if is_space c then trim_start s else c ∷ s

-- `trim_start_matches(d)`
unfoldable pub drop_while : ℕ → Text → Text
drop_while d [] = []
drop_while d (c ∷ s) = if c == d then drop_while d s else c ∷ s

-- `trim_end_matches(d)`
unfoldable pub trim_end : ℕ → Text → Text
unfolding drop_while
trim_end d s = reverse (drop_while d (reverse s))

unfoldable pub trim : Text → Text
unfolding trim_start
trim s = reverse (trim_start (reverse (trim_start s)))

unfoldable pub strip_prefix : Text → Text → Option Text
strip_prefix [] s = some s
strip_prefix (d ∷ p) [] = none
strip_prefix (d ∷ p) (c ∷ s) = if c == d then strip_prefix p s else none

-- What `format!` does with its parts.
unfoldable pub concat : List Text → Text
concat [] = []
concat (p ∷ ps) = p ++ concat ps

abbrev part_at : Bool → ℕ → List Text → List Text
part_at true c parts = [] ∷ parts
part_at false c parts = cons_first c parts

-- The parts between single characters of white space, empty ones included.
abbrev split_spaces : Text → List Text
split_spaces [] = [] ∷ []
split_spaces (c ∷ s) = part_at (is_space c) c (split_spaces s)

abbrev non_empty : List Text → List Text
non_empty [] = []
non_empty ([] ∷ ps) = non_empty ps
non_empty ((c ∷ p) ∷ ps) = (c ∷ p) ∷ non_empty ps

unfoldable pub split_whitespace : Text → List Text
split_whitespace s = non_empty (split_spaces s)

unfoldable pub strip_suffix : Text → Text → Option Text
unfolding strip_prefix
strip_suffix suffix s = elim (strip_prefix (reverse suffix) (reverse s)) [
  | none ↦ none
  | some t ↦ some (reverse t)
]

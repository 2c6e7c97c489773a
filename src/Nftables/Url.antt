-- ===== src/Nftables/Url.antt =====
-- `extract_url_host`: the host of the dashboard's URL.
use panel_agent.Common.{
  ℕ, Bool, true, false, ◌&&◌, Option, none, some, List, [], ◌∷◌, Text, split_on, ◌==◌,
  if◌then◌else◌,
}

abbrev pub cons_first : ℕ → List Text → List Text
cons_first c [] = (c ∷ []) ∷ []
cons_first c (p ∷ ps) = (c ∷ p) ∷ ps

-- `split("//")`
unfoldable pub split_slashes : Text → List Text
split_slashes [] = [] ∷ []
split_slashes (c ∷ []) = (c ∷ []) ∷ []
split_slashes (c ∷ d ∷ s) =
    let cut = [] ∷ split_slashes s in
    let on = cons_first c (split_slashes (d ∷ s)) in if c == b'/' && d == b'/' then cut else on

-- The part of an address in brackets up to the first `]`, or all of it if there is none.
unfoldable pub through_bracket : Text → Option Text
through_bracket [] = none
through_bracket (c ∷ s) = elim (c == b']') [
  | true ↦ some (c ∷ [])
  | false ↦ elim (through_bracket s) [ none ↦ none | some t ↦ some (c ∷ t) ]
]

abbrev or_whole : Text → Option Text → Text
or_whole t none = t
or_whole t (some u) = u

abbrev pub second_or : Text → List Text → Text
second_or t (a ∷ b ∷ ps) = b
second_or t ps = t

abbrev pub first_or : Text → List Text → Text
first_or t [] = t
first_or t (a ∷ ps) = a

abbrev pub nonempty : Text → Option Text
nonempty [] = none
nonempty (c ∷ s) = some (c ∷ s)

abbrev is_bracketed : Text → Bool
is_bracketed [] = false
is_bracketed (c ∷ s) = c == b'['

unfoldable pub host_part : Text → Text
unfolding through_bracket split_on
host_part t =
    if is_bracketed t then or_whole t (through_bracket t) else first_or t (split_on b':' t)

unfoldable pub extract_url_host : Text → Option Text
unfolding split_slashes host_part
extract_url_host [] = none
extract_url_host (c ∷ url) = nonempty (host_part (second_or (c ∷ url) (split_slashes (c ∷ url))))

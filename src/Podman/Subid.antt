-- ===== src/Podman/Subid.antt =====
-- The range of subordinate ids that a new tenant gets.
use panel_agent.Common.{
  ℕ, ◌≤◌, ◌≡◌, Option, none, some, List, [], ◌∷◌, ◌++◌, Text, arith, All, txt, refl,
}
use panel_agent.Runtime.{Machine, Agent, ok}
use panel_agent.Podman.Users.{
  max_from, larger, add_end, min_start, lines_of, subid_ends, subid_end, next_subid_start,
}

max_from_bounds : (m : ℕ) (ns : List ℕ) → (m ≤ max_from m ns) × All (λ n. n ≤ max_from m ns) ns
unfolding max_from
max_from_bounds m [] = (omega arith, tt)
max_from_bounds m (n ∷ ns) =
    let (low, high) = max_from_bounds (larger m n) ns in (ground arith, (ground arith, high))

-- Every line that stands for a range ends at or below the bound.
abbrev pub EndsBelow : ℕ → Option ℕ → Type 0
EndsBelow bound none = Unit
EndsBelow bound (some n) = n ≤ bound

split_end :
    (bound : ℕ) (o : Option ℕ) (es : List ℕ)
    → All (λ n. n ≤ bound) (add_end o es)
    → EndsBelow bound o × All (λ n. n ≤ bound) es
split_end bound none es h = (tt, h)
split_end bound (some n) es h = h

ends_below :
    (bound : ℕ) (ls : List Text)
    → All (λ n. n ≤ bound) (subid_ends ls)
    → All (λ line. EndsBelow bound (subid_end line)) ls
unfolding subid_ends
ends_below bound [] h = tt
ends_below bound (line ∷ ls) h =
    let (here, later) = split_end bound (subid_end line) (subid_ends ls) h in
    (here, ends_below bound ls later)

module _ (m : Machine) (s : Agent m.World) where
  abbrev subuid : Option Text
  subuid = (m.read_file (txt "/etc/subuid") s.world).0

  abbrev subgid : Option Text
  subgid = (m.read_file (txt "/etc/subgid") (m.read_file (txt "/etc/subuid") s.world).1).0

  -- The start is found, and stands above every range of the two files.
  abbrev pub IsFreeStart : Type 0
  IsFreeStart =
      (start : ℕ) × ((next_subid_start m s).0 ≡ ok start)
      × (min_start ≤ start)
      × All (λ line. EndsBelow start (subid_end line)) (lines_of subuid ++ lines_of subgid)

  -- The start that a new tenant's range gets is found whatever the two files hold, is at least
  -- 100000, and is at or above the (wrapped) end of every range that a line of them records.
  pub next_subid_start_above : IsFreeStart
  unfolding next_subid_start
  next_subid_start_above =
      let ls = lines_of subuid ++ lines_of subgid in
      let (low, high) = max_from_bounds min_start (subid_ends ls) in
      (max_from min_start (subid_ends ls), refl, low, ends_below _ ls high)

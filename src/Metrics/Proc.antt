-- ===== src/Metrics/Proc.antt =====
-- The texts of /proc that src/metrics/mod.rs reads.
use panel_agent.Common.{
  ℕ, ◌+◌, ◌-◌, ◌/◌, ◌%◌, ◌^◌, Option, none, some, List, [], ◌∷◌, Text, txt, get_elem?, drop, lines,
  split_whitespace, starts_with, parse_uint, if◌then◌else◌,
}

abbrev or_nat : ℕ → Option ℕ → ℕ
or_nat d none = d
or_nat d (some n) = n

abbrev parse_u64 : Option Text → Option ℕ
parse_u64 none = none
parse_u64 (some s) = parse_uint (2 ^ 64) s

unfoldable pub parse_kb : Text → ℕ
unfolding split_whitespace parse_uint
parse_kb line = or_nat 0 (parse_u64 (get_elem? (split_whitespace line) 1))

-- One line of /proc/meminfo, on the total and what is available.
abbrev pub meminfo_line : Text → ℕ × ℕ → ℕ × ℕ
unfolding txt parse_kb starts_with
meminfo_line line (total, available) =
    if starts_with line (txt "MemTotal:")
    then (parse_kb line, available)
    else if starts_with line (txt "MemAvailable:")
    then (total, parse_kb line)
    else (total, available)

abbrev pub meminfo : List Text → ℕ × ℕ → ℕ × ℕ
meminfo [] p = p
meminfo (line ∷ rest) p = meminfo rest (meminfo_line line p)

-- `(used / 1024, total / 1024)`, with a `saturating_sub`.
abbrev pub in_mb : ℕ × ℕ → ℕ × ℕ
in_mb (total, available) = ((total - available) / 1024, total / 1024)

abbrev pub or_text : Option Text → Text
or_text none = []
or_text (some t) = t

-- The numbers among the texts.
abbrev cons_read : Option ℕ → List ℕ → List ℕ
cons_read none ns = ns
cons_read (some n) ns = n ∷ ns

abbrev numbers : List Text → List ℕ
numbers [] = []
numbers (s ∷ rest) = cons_read (parse_uint (2 ^ 64) s) (numbers rest)

-- `iter().sum()` of u64, which wraps.
abbrev sum_u64 : List ℕ → ℕ
sum_u64 [] = 0
sum_u64 (n ∷ ns) = (n + sum_u64 ns) % 2 ^ 64

abbrev total_and_idle : List ℕ → Option ℕ → Option (ℕ × ℕ)
total_and_idle fields none = none
total_and_idle fields (some idle) = some (sum_u64 fields, idle)

-- The sum and the fourth of the numbers of the line, if it has four.
abbrev pub stat_line : Option Text → Option (ℕ × ℕ)
unfolding split_whitespace parse_uint
stat_line none = none
stat_line (some line) =
    let fields = numbers (drop 1 (split_whitespace line)) in
    total_and_idle fields (get_elem? fields 3)

unfoldable pub read_proc_stat_text : Option Text → Option (ℕ × ℕ)
unfolding lines
read_proc_stat_text none = none
read_proc_stat_text (some content) = stat_line (get_elem? (lines content) 0)

abbrev pub or_ones : Option (ℕ × ℕ) → ℕ × ℕ
or_ones none = (1, 1)
or_ones (some p) = p

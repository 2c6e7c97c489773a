-- ===== src/Tests/Gauges.antt =====
-- Samples with small numbers, for the examples.
use panel_agent.Common.{
  ℕ, ◌-◌, ◌*◌, ◌/◌, Option, none, some, [], Text, leb, if◌then◌else◌, parse_uint,
}
use panel_agent.Metrics.Sample.{Floats, Probe, Gauges}
use panel_agent.Tests.Fixture.{Scene, scene_machine}

unfoldable pub read_number : Text → Option ℕ
unfolding parse_uint
read_number s = parse_uint 1000 s

-- Whole numbers in place of `f64`.
abbrev pub whole : Floats
whole = record {
  Float = ℕ;
  of_nat = λ n. n;
  minus = λ a b. a - b;
  times = λ a b. a * b;
  over = λ a b. a / b;
  clamp = λ x low high. if leb x low then low else if leb high x then high else x;
  is_le = leb;
  parse = read_number;
}

abbrev pub a_probe : Probe Scene
a_probe = record {
  sleep_ms = λ _ w. w;
  statvfs = λ _ w. (some (record { block_size = 4096; blocks = 1000; blocks_available = 10 }), w);
  parse_stats = λ _. none;
}

abbrev pub toy_gauges : Gauges scene_machine
toy_gauges = record {
  floats = whole;
  probe = a_probe;
  encode_system = λ _. [];
  encode_containers = λ _. [];
}

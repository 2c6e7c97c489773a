-- ===== src/Tests/Metrics.antt =====
-- Examples for the metrics.
use panel_agent.Common.{
  ◌≡◌, refl, [], txt, split_whitespace, parse_uint, trim, strip_suffix, split_on, ◌∷◌, starts_with,
}
use panel_agent.Metrics.Proc.{parse_kb, meminfo}
use panel_agent.Metrics.Sample.{parse_mem_usage, size_mb}
use panel_agent.Tests.Gauges.{whole, a_probe, read_number}
use panel_agent.Tests.Fixture.{scene_machine}

kb : parse_kb (txt "MemTotal:       16384000 kB") ≡ 16384000
unfolding parse_kb split_whitespace parse_uint txt
kb = refl

usage : parse_mem_usage scene_machine whole a_probe (txt "  32MiB  /  4GiB  ") ≡ (32, 4096)
unfolding read_number parse_mem_usage size_mb split_on trim strip_suffix parse_uint txt
usage = refl

unknown_unit : parse_mem_usage scene_machine whole a_probe (txt "100XiB / 200XiB") ≡ (0, 0)
unfolding read_number parse_mem_usage size_mb split_on trim strip_suffix parse_uint txt
unknown_unit = refl

-- Three lines of /proc/meminfo.
memory :
    meminfo
      (txt "MemTotal:  16384000 kB" ∷ txt "MemFree:  100 kB" ∷ txt "MemAvailable:  8192000 kB" ∷ [])
      (0, 0)
    ≡ (16384000, 8192000)
unfolding parse_kb split_whitespace parse_uint txt starts_with
memory = refl

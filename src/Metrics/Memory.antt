-- ===== src/Metrics/Memory.antt =====
-- The memory in use against the whole.
use panel_agent.Common.{ℕ, ◌≤◌, ◌≡◌, refl, List, Text, arith}
use panel_agent.Runtime.{Machine, Agent, ok}
use panel_agent.Metrics.Proc.{meminfo, in_mb}
use panel_agent.Metrics.Sample.{Floats, Probe, SystemMetrics, read_mem_mb, sample_system}

in_mb-meminfo : (ls : List Text) (p : ℕ × ℕ) → (in_mb (meminfo ls p)).0 ≤ (in_mb (meminfo ls p)).1
in_mb-meminfo ls p = omega arith

-- A sample of the system is always there, whatever /proc holds: its memory in use is at most the
-- whole, and taking it leaves the state and the tables as they were.
pub sample_system_total :
    (m : Machine) (floats : Floats) (probe : Probe m.World) (s : Agent m.World)
    → (x : SystemMetrics m floats probe) × ((s' : Agent m.World) × ((sample_system m floats probe s
            ≡ (ok x, s'))
          × ((x.mem_used_mb ≤ x.mem_total_mb) × ((s'.app ≡ s.app) × (s'.db ≡ s.db)))))
unfolding sample_system read_mem_mb
sample_system_total m floats probe s = (_, (_, (refl, (omega arith, (refl, refl)))))

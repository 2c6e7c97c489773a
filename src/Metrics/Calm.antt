-- ===== src/Metrics/Calm.antt =====
-- Samples that end, and change nothing of the agent.
use panel_agent.Runtime.{Machine}
use panel_agent.Runtime.Ends.{Ends, ends}
use panel_agent.Runtime.Frame.{Keeps, keeps}
use panel_agent.Metrics.Sample.{
  Floats, Probe, sample_system, sample_containers, collect_container_stats, read_cpu_percent,
  read_proc_stat, read_mem_mb, read_disk_gb,
}

module _ (m : Machine) (floats : Floats) (probe : Probe m.World) where
  pub system-Ends : Ends (sample_system m floats probe)
  unfolding sample_system read_cpu_percent read_proc_stat read_mem_mb read_disk_gb
  system-Ends = search ends depth 40 fits 5000

  pub system-Keeps : Keeps (sample_system m floats probe)
  unfolding sample_system read_cpu_percent read_proc_stat read_mem_mb read_disk_gb
  system-Keeps = search keeps depth 40 fits 5000

  pub containers-Keeps : Keeps (sample_containers m floats probe)
  unfolding sample_containers collect_container_stats
  containers-Keeps = search keeps depth 20

  pub containers-Ends : Ends (sample_containers m floats probe)
  unfolding sample_containers collect_container_stats
  containers-Ends = search ends depth 20

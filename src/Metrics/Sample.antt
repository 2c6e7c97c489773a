-- ===== src/Metrics/Sample.antt =====
-- The samples of src/metrics/mod.rs. Floating point numbers, statvfs and serde_json are parameters.
use panel_agent.Common.{
  ℕ, ◌-◌, ◌*◌, ◌%◌, ◌^◌, Bool, Option, none, some, List, [], ◌∷◌, Text, txt, map, lines, split_on,
  strip_suffix, trim, trim_end, if◌then◌else◌,
}
use panel_agent.Runtime.{Machine, AgentError, Proc, command, M, ◌>>=◌, ◌>>◌, pure, ask, tell}
use panel_agent.Metrics.Proc.{meminfo, in_mb, or_text, read_proc_stat_text, or_ones}

-- The operations of `f64`.
pub record Floats : Type 1 where
  pub Float : Type 0
  pub of_nat : ℕ → Float  -- `as f64`
  pub minus : Float → Float → Float
  pub times : Float → Float → Float
  pub over : Float → Float → Float
  pub clamp : Float → Float → Float → Float
  pub is_le : Float → Float → Bool
  pub parse : Text → Option Float

pub record Statvfs : Type 0 where
  pub block_size : ℕ
  pub blocks : ℕ
  pub blocks_available : ℕ

pub record RawStat : Type 0 where
  pub id : Text
  pub name : Text
  pub cpu_perc : Text
  pub mem_usage : Text

-- A sleep in milliseconds, the state of a file system, and what podman prints.
pub record Probe (W : Type 0) : Type 0 where
  pub sleep_ms : ℕ → W → W
  pub statvfs : Text → W → Option Statvfs × W
  pub parse_stats : Text → Option (List RawStat)

abbrev first_or : {A : Type 0} → A → List A → A
first_or d [] = d
first_or d (x ∷ xs) = x

abbrev second_or : {A : Type 0} → A → List A → A
second_or d [] = d
second_or d (x ∷ xs) = first_or d xs

module _ (m : Machine) (floats : Floats) (probe : Probe m.World) where
  open m use {World, read_file, run, clock}
  open floats use {Float, of_nat, minus, times, over, clamp, is_le, parse}
  open probe use {sleep_ms, statvfs, parse_stats}

  pub record SystemMetrics : Type 0 where
    pub cpu_percent : Float
    pub mem_used_mb : ℕ
    pub mem_total_mb : ℕ
    pub disk_used_gb : Float
    pub disk_total_gb : Float
    pub timestamp : ℕ

  pub record ContainerStat : Type 0 where
    pub id : Text
    pub name : Text
    pub cpu_percent : Float
    pub mem_usage_mb : Float
    pub mem_limit_mb : Float

  pub record ContainerMetrics : Type 0 where
    pub containers : List ContainerStat
    pub timestamp : ℕ

  unfoldable pub read_proc_stat : M World AgentError (Option (ℕ × ℕ))
  unfolding txt read_proc_stat_text
  read_proc_stat = do
    content ← ask (read_file (txt "/proc/stat"))
    pure (read_proc_stat_text content)

  unfoldable pub cpu_percent_of : ℕ × ℕ → ℕ × ℕ → Float
  cpu_percent_of (total1, idle1) (total2, idle2) =
      let total_diff = minus (of_nat total2) (of_nat total1) in
      let idle_diff = minus (of_nat idle2) (of_nat idle1) in
      if is_le total_diff (of_nat 0)
      then of_nat 0
      else clamp (times (over (minus total_diff idle_diff) total_diff) (of_nat 100)) (of_nat 0)
          (of_nat 100)

  unfoldable pub read_cpu_percent : M World AgentError Float
  unfolding read_proc_stat cpu_percent_of
  read_cpu_percent = do
    s1 ← read_proc_stat
    tell (sleep_ms 100)
    s2 ← read_proc_stat
    pure (cpu_percent_of (or_ones s1) (or_ones s2))

  unfoldable pub read_mem_mb : M World AgentError (ℕ × ℕ)
  unfolding txt lines
  read_mem_mb = do
    content ← ask (read_file (txt "/proc/meminfo"))
    pure (in_mb (meminfo (lines (or_text content)) (0, 0)))

  -- The products are u64, and wrap.
  unfoldable pub disk_gb_of : Option Statvfs → Float × Float
  disk_gb_of none = (of_nat 0, of_nat 0)
  disk_gb_of (some stat) =
      let total = (stat.blocks * stat.block_size) % 2 ^ 64 in
      let avail = (stat.blocks_available * stat.block_size) % 2 ^ 64 in
      (over (of_nat (total - avail)) (of_nat 1073741824), over (of_nat total) (of_nat 1073741824))

  unfoldable pub read_disk_gb : Text → M World AgentError (Float × Float)
  unfolding disk_gb_of
  read_disk_gb mount = do stat ← ask (statvfs mount); pure (disk_gb_of stat)

  unfoldable pub sample_system : M World AgentError SystemMetrics
  unfolding txt read_cpu_percent read_mem_mb read_disk_gb
  sample_system = do
    cpu ← read_cpu_percent
    mem ← read_mem_mb
    disk ← read_disk_gb (txt "/")
    now ← ask clock
    pure (record {
      cpu_percent = cpu;
      mem_used_mb = mem.0;
      mem_total_mb = mem.1;
      disk_used_gb = disk.0;
      disk_total_gb = disk.1;
      timestamp = now;
    })

  abbrev or_zero : Option Float → Float
  or_zero none = of_nat 0
  or_zero (some x) = x

  abbrev either : Option Text → Option Text → Option Text
  either none other = other
  either (some t) other = some t

  -- A number with its unit, in megabytes.
  unfoldable pub size_mb : Text → Float
  unfolding txt trim strip_suffix
  size_mb raw =
      let s = trim raw in
      elim (either (strip_suffix (txt "GiB") s) (strip_suffix (txt "GB") s)) [
        | some v ↦ times (or_zero (parse v)) (of_nat 1024)
        | none ↦ elim (either (strip_suffix (txt "MiB") s) (strip_suffix (txt "MB") s)) [
          | some v ↦ or_zero (parse v)
          | none ↦ elim (either (strip_suffix (txt "KiB") s) (strip_suffix (txt "KB") s)) [
            | some v ↦ over (or_zero (parse v)) (of_nat 1024)
            | none ↦ of_nat 0
          ]
        ]
      ]

  -- The parts between slashes, the first two of them.
  unfoldable pub parse_mem_usage : Text → Float × Float
  unfolding split_on size_mb
  parse_mem_usage raw =
      let sizes = map size_mb (split_on b'/' raw) in
      (first_or (of_nat 0) sizes, second_or (of_nat 0) sizes)

  abbrev pub container_stat : RawStat → ContainerStat
  unfolding trim_end parse_mem_usage
  container_stat s = record {
    id = s.id;
    name = s.name;
    cpu_percent = or_zero (parse (trim_end b'%' s.cpu_perc));
    mem_usage_mb = (parse_mem_usage s.mem_usage).0;
    mem_limit_mb = (parse_mem_usage s.mem_usage).1;
  }

  abbrev read_stats : Option (List RawStat) → List ContainerStat
  read_stats none = []
  read_stats (some stats) = map container_stat stats

  abbrev stats_of : Proc → List ContainerStat
  stats_of Proc.failed = []
  stats_of (Proc.exited success stdout) =
      let stats = read_stats (parse_stats stdout) in if success then stats else []

  unfoldable pub collect_container_stats : M World AgentError (List ContainerStat)
  unfolding txt
  collect_container_stats = do
    output ← ask (
        run (
          command (txt "podman")
            (txt "stats" ∷ txt "--no-stream" ∷ txt "--format" ∷ txt "json" ∷ [])))
    pure (stats_of output)

  unfoldable pub sample_containers : M World AgentError ContainerMetrics
  unfolding collect_container_stats
  sample_containers = do
    containers ← collect_container_stats
    now ← ask clock
    pure (record { containers = containers; timestamp = now })

-- What a sample needs, and serde_json's encoding of the samples.
pub record Gauges (m : Machine) : Type 1 where
  pub floats : Floats
  pub probe : Probe m.World
  pub encode_system : SystemMetrics m floats probe → Text
  pub encode_containers : ContainerMetrics m floats probe → Text

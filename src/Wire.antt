-- ===== src/Wire.antt =====
-- The wire records of a telemetry snapshot: the dataclasses of
-- components/kilix-telemetry/src/kilix_telemetry/model.py.
pub mod Read
pub mod Write
pub mod Proper
pub mod RoundTrip
pub mod Bounds
mod Tests
use kilix_system_monitor.Prelude.{ℕ, String, Bool, Option, List}
use kilix_system_monitor.Json.{Float}

-- Mappings, in the order of their entries.
abbrev pub Counters : Type 0
Counters = List (String × ℕ)

abbrev pub Readings : Type 0
Readings = List (String × Float)

abbrev pub Pressure : Type 0
Pressure = List (String × Readings)

pub record ThermalSensor : Type 0 where
  pub key : String
  pub chip : String
  pub label : String
  pub source : String
  pub celsius : Float
  pub warning_celsius : Option Float
  pub critical_celsius : Option Float

pub record FanSensor : Type 0 where
  pub key : String
  pub chip : String
  pub label : String
  pub source : String
  pub rpm : ℕ

pub record ProcessMetrics : Type 0 where
  pub pid : ℕ
  pub ppid : ℕ
  pub start_ticks : ℕ
  pub cpu_ticks : ℕ
  pub cpu_cores : Float
  pub rss_bytes : ℕ
  pub pss_bytes : Option ℕ
  pub virtual_bytes : ℕ
  pub uid : ℕ
  pub name : String
  pub state : String
  pub threads : ℕ
  pub command : String
  pub anon_bytes : ℕ
  pub file_bytes : ℕ
  pub shared_bytes : ℕ

pub record SystemMetrics : Type 0 where
  pub cpu_percent : Option Float
  pub load_1 : Float
  pub load_5 : Float
  pub load_15 : Float
  pub logical_cpus : ℕ
  pub uptime_seconds : Float
  pub memory_total : ℕ
  pub memory_available : ℕ
  pub memory_free : ℕ
  pub memory_buffers : ℕ
  pub memory_cached : ℕ
  pub memory_reclaimable : ℕ
  pub memory_shared : ℕ
  pub memory_active : ℕ
  pub memory_inactive : ℕ
  pub memory_anon : ℕ
  pub memory_slab : ℕ
  pub memory_page_tables : ℕ
  pub memory_kernel_stack : ℕ
  pub memory_dirty : ℕ
  pub memory_writeback : ℕ
  pub swap_total : ℕ
  pub swap_free : ℕ
  pub pressure : Pressure
  pub vm : Counters
  pub per_cpu_percent : List (Option Float)
  pub cpu_frequency_mhz : List (Option Float)
  pub memory_huge_total : ℕ
  pub memory_huge_free : ℕ
  pub memory_huge_page_size : ℕ

pub record PaneMetrics : Type 0 where
  pub root_pid : ℕ
  pub process_count : ℕ
  pub cpu_cores : Float
  pub rss_bytes : ℕ
  pub proportional_bytes : ℕ
  pub complete_pss : Bool

pub record Snapshot : Type 0 where
  pub sequence : ℕ
  pub wall_time_ns : ℕ
  pub monotonic_ns : ℕ
  pub interval_ns : ℕ
  pub boot_id : String
  pub system : SystemMetrics
  pub thermal : List ThermalSensor
  pub processes : List ProcessMetrics
  pub fans : List FanSensor
  pub schema : ℕ
  pub panes : List PaneMetrics
  pub processes_total : ℕ
  pub processes_truncated : Bool

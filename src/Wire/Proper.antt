-- ===== src/Wire/Proper.antt =====
-- The snapshots that fit the bounds of the wire format.
use kilix_system_monitor.Prelude.{ℕ, ◌*◌, ◌≤◌, ◌≡◌, Option, none, some, List, All, length}
use kilix_system_monitor.Prelude.Int.{ℤ, pos}
use kilix_system_monitor.Json.{Float, real, unit}
use kilix_system_monitor.Json.Text.{text_length}
use kilix_system_monitor.Wire.{
  Readings, Pressure, ThermalSensor, FanSensor, ProcessMetrics, SystemMetrics, PaneMetrics,
  Snapshot,
}

abbrev pub IsReal : Float → Type 0
IsReal f = (z : ℤ) × (f ≡ real z)

abbrev pub IsNonnegative : Float → Type 0
IsNonnegative f = (n : ℕ) × (f ≡ real (pos n))

abbrev pub IsPercent : Float → Type 0
IsPercent f = (n : ℕ) × (f ≡ real (pos n)) × (n ≤ 100 * unit)

abbrev pub IfSome : (Float → Type 0) → Option Float → Type 0
IfSome P none = Unit
IfSome P (some f) = P f

pub record IsThermal (s : ThermalSensor) : Type 0 where
  pub key : text_length s.key ≤ 256
  pub chip : text_length s.chip ≤ 80
  pub label : text_length s.label ≤ 80
  pub source : text_length s.source ≤ 80
  pub celsius : IsReal s.celsius
  pub warning : IfSome IsReal s.warning_celsius
  pub critical : IfSome IsReal s.critical_celsius

pub record IsFan (s : FanSensor) : Type 0 where
  pub key : text_length s.key ≤ 256
  pub chip : text_length s.chip ≤ 80
  pub label : text_length s.label ≤ 80
  pub source : text_length s.source ≤ 80
  pub rpm : s.rpm ≤ 200000

pub record IsProcess (s : ProcessMetrics) : Type 0 where
  pub cpu : IsNonnegative s.cpu_cores
  pub name : text_length s.name ≤ 80
  pub state : text_length s.state ≤ 8
  pub threads : 1 ≤ s.threads
  pub command : text_length s.command ≤ 4096

abbrev pub AreReal : Readings → Type 0
AreReal readings = All (λ r. IsReal r.1) readings

abbrev pub IsPressure : Pressure → Type 0
IsPressure pressure = All (λ r. AreReal r.1) pressure

abbrev pub IsSeries : List (Option Float) → Type 0
IsSeries fs = (length fs ≤ 4096) × All (IfSome IsNonnegative) fs

pub record IsSystem (s : SystemMetrics) : Type 0 where
  pub cpu : IfSome IsPercent s.cpu_percent
  pub load_1 : IsNonnegative s.load_1
  pub load_5 : IsNonnegative s.load_5
  pub load_15 : IsNonnegative s.load_15
  pub cpus : 1 ≤ s.logical_cpus
  pub uptime : IsNonnegative s.uptime_seconds
  pub pressure : IsPressure s.pressure
  pub per_cpu : IsSeries s.per_cpu_percent
  pub frequency : IsSeries s.cpu_frequency_mhz

-- Every part fits, and the total counts at least the processes that are listed.
pub record IsProper (s : Snapshot) : Type 0 where
  pub schema : s.schema ≡ 1
  pub boot_id : text_length s.boot_id ≤ 128
  pub system : IsSystem s.system
  pub thermal : All IsThermal s.thermal
  pub processes : All IsProcess s.processes
  pub fans : All IsFan s.fans
  pub panes : All (λ p. IsNonnegative (PaneMetrics.cpu_cores p)) s.panes
  pub total : length s.processes ≤ s.processes_total

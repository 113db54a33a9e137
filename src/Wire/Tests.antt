-- ===== src/Wire/Tests.antt =====
-- A snapshot that is written and read back, and an infinite number.
use kilix_system_monitor.Prelude.{◌*◌, ◌≤◌, ◌≡◌, refl, true, none, some, [], ◌∷◌, arith}
use kilix_system_monitor.Prelude.Int.{pos}
use kilix_system_monitor.Json.{
  float, end, field, Float, real, infinite, ok, raised, overflow_error, unit, Conversions,
}
use kilix_system_monitor.Wire.{
  ThermalSensor, FanSensor, ProcessMetrics, SystemMetrics, PaneMetrics, Snapshot,
}
use kilix_system_monitor.Wire.Read.Records.{read_fan, from_dict}
use kilix_system_monitor.Wire.Write.{to_dict}
use kilix_system_monitor.Wire.Proper.{IsThermal, IsFan, IsProcess, IsSystem, IsProper}
use kilix_system_monitor.Wire.RoundTrip.{from_dict-to_dict}
use kilix_system_monitor.Wire.Bounds.{from_dict-IsProper}

-- Conversions that refuse every text and every integer.
abbrev conversions : Conversions
conversions = record {
  float_of_int = λ z. none;
  float_of_text = λ s. none;
  int_of_text = λ s. none;
  text_of = λ value. "None";
}

abbrev cold : Float
cold = real (pos 0)

abbrev sensor : ThermalSensor
sensor = record {
  key = "k10temp:1";
  chip = "k10temp";
  label = "Tctl";
  source = "hwmon";
  celsius = real (pos 7);
  warning_celsius = none;
  critical_celsius = some (real (pos 9));
}

abbrev fan : FanSensor
fan = record { key = "fan1"; chip = "nct"; label = "CPU"; source = "hwmon"; rpm = 900 }

abbrev process : ProcessMetrics
process = record {
  pid = 40;
  ppid = 1;
  start_ticks = 5;
  cpu_ticks = 6;
  cpu_cores = real (pos 3);
  rss_bytes = 4096;
  pss_bytes = some 100;
  virtual_bytes = 8192;
  uid = 1000;
  name = "sh";
  state = "S";
  threads = 1;
  command = "sh -c true";
  anon_bytes = 1;
  file_bytes = 2;
  shared_bytes = 3;
}

abbrev system : SystemMetrics
system = record {
  cpu_percent = some (real (pos 5));
  load_1 = cold;
  load_5 = cold;
  load_15 = cold;
  logical_cpus = 2;
  uptime_seconds = real (pos 8);
  memory_total = 10;
  memory_available = 9;
  memory_free = 8;
  memory_buffers = 0;
  memory_cached = 0;
  memory_reclaimable = 0;
  memory_shared = 0;
  memory_active = 0;
  memory_inactive = 0;
  memory_anon = 0;
  memory_slab = 0;
  memory_page_tables = 0;
  memory_kernel_stack = 0;
  memory_dirty = 0;
  memory_writeback = 0;
  swap_total = 0;
  swap_free = 0;
  pressure = ("cpu", ("some", cold) ∷ []) ∷ [];
  vm = ("pgfault", 12) ∷ [];
  per_cpu_percent = some cold ∷ none ∷ [];
  cpu_frequency_mhz = [];
  memory_huge_total = 0;
  memory_huge_free = 0;
  memory_huge_page_size = 0;
}

abbrev pane : PaneMetrics
pane = record {
  root_pid = 40;
  process_count = 1;
  cpu_cores = real (pos 3);
  rss_bytes = 4096;
  proportional_bytes = 100;
  complete_pss = true;
}

abbrev snapshot : Snapshot
snapshot = record {
  sequence = 3;
  wall_time_ns = 1;
  monotonic_ns = 2;
  interval_ns = 4;
  boot_id = "b";
  system = system;
  thermal = sensor ∷ [];
  processes = process ∷ [];
  fans = fan ∷ [];
  schema = 1;
  panes = pane ∷ [];
  processes_total = 2;
  processes_truncated = true;
}

sensor-IsThermal : IsThermal sensor
sensor-IsThermal = record {
  key = omega arith;
  chip = omega arith;
  label = omega arith;
  source = omega arith;
  celsius = (pos 7, refl);
  warning = tt;
  critical = (pos 9, refl);
}

fan-IsFan : IsFan fan
fan-IsFan = record {
  key = omega arith;
  chip = omega arith;
  label = omega arith;
  source = omega arith;
  rpm = omega arith;
}

process-IsProcess : IsProcess process
process-IsProcess = record {
  cpu = (3, refl);
  name = omega arith;
  state = omega arith;
  threads = omega arith;
  command = omega arith;
}

five_le : 5 ≤ 100 * unit
unfolding unit
five_le = omega arith

system-IsSystem : IsSystem system
system-IsSystem = record {
  cpu = (5, refl, five_le);
  load_1 = (0, refl);
  load_5 = (0, refl);
  load_15 = (0, refl);
  cpus = omega arith;
  uptime = (8, refl);
  pressure = (((pos 0, refl), tt), tt);
  per_cpu = (omega arith, ((0, refl), (tt, tt)));
  frequency = (omega arith, tt);
}

snapshot-IsProper : IsProper snapshot
snapshot-IsProper = record {
  schema = refl;
  boot_id = omega arith;
  system = system-IsSystem;
  thermal = (sensor-IsThermal, tt);
  processes = (process-IsProcess, tt);
  fans = (fan-IsFan, tt);
  panes = ((3, refl), tt);
  total = omega arith;
}

from_dict-to_dict_example : from_dict conversions (to_dict snapshot) ≡ ok snapshot
from_dict-to_dict_example = from_dict-to_dict conversions snapshot snapshot-IsProper

from_dict-IsProper_example : IsProper snapshot
from_dict-IsProper_example =
    from_dict-IsProper conversions (to_dict snapshot) snapshot from_dict-to_dict_example

-- `Infinity` is a number of the JSON that Python reads.
infinite_rpm :
    read_fan conversions (field "rpm" (float (infinite true)) end) ≡ raised overflow_error
unfolding read_fan
infinite_rpm = refl

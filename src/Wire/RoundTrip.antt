-- ===== src/Wire/RoundTrip.antt =====
-- What `to_dict` writes, `from_dict` reads back.
mod Parts
use kilix_system_monitor.Prelude.{
  ℕ, ◌≤◌, ◌≡◌, refl, sym, ◌∙◌, ap, min, max, Bool, true, false, Option, none, some, List, [], ◌∷◌,
  All, length, arith, if◌then◌else◌, ◌==◌,
}
use kilix_system_monitor.Prelude.Int.{ℤ, pos, negsuc}
use kilix_system_monitor.Json.{
  Json, arr, obj, Items, nil, cons, Fields, Float, real, Outcome, ok, raised, ◌>>=◌, ◌>>◌,
  Conversions,
}
use kilix_system_monitor.Json.Text.{text_length, take_text, take_text-all}
use kilix_system_monitor.Wire.{
  ThermalSensor, FanSensor, ProcessMetrics, SystemMetrics, PaneMetrics, Snapshot,
}
use kilix_system_monitor.Wire.Proper.{
  IsThermal, IsFan, IsProcess, IsSystem, IsProper, IsNonnegative,
}
use kilix_system_monitor.Wire.Read.Records.{
  read_process, read_fan, read_pane, read_thermal, read_system, read_records, from_dict,
}
use kilix_system_monitor.Wire.Write.{
  process_dict, fan_dict, pane_dict, thermal_dict, system_dict, record_items, to_dict,
}
use kilix_system_monitor.Wire.RoundTrip.Parts

module _ (c : Conversions) where
  thermal-back : (s : ThermalSensor) → IsThermal s → read_thermal c (thermal_dict s) ≡ ok s
  unfolding read_thermal thermal_dict
  thermal-back s h = rw (take_text-all 256 s.key h.key) (
      rw (take_text-all 80 s.chip h.chip) (
        rw (take_text-all 80 s.label h.label) (
          rw (take_text-all 80 s.source h.source) (
            rw (Parts.real_back s.celsius h.celsius) (
              rw (Parts.optional_back c s.warning_celsius h.warning)
                (rw (Parts.optional_back c s.critical_celsius h.critical) refl))))))

  fan-back : (s : FanSensor) → IsFan s → read_fan c (fan_dict s) ≡ ok s
  unfolding read_fan fan_dict
  fan-back s h =
      let rpm : min 200000 s.rpm ≡ s.rpm = omega (arith, h.rpm) in
      rw (take_text-all 256 s.key h.key) (
        rw (take_text-all 80 s.chip h.chip) (
          rw (take_text-all 80 s.label h.label)
            (rw (take_text-all 80 s.source h.source) (rw rpm refl))))

  process-back : (s : ProcessMetrics) → IsProcess s → read_process c (process_dict s) ≡ ok s
  unfolding read_process process_dict
  process-back s h =
      let threads : max 1 s.threads ≡ s.threads = omega (arith, h.threads) in
      rw (take_text-all 80 s.name h.name) (
        rw (take_text-all 8 s.state h.state) (
          rw (take_text-all 4096 s.command h.command) (
            rw threads (
              rw (Parts.nonnegative_back s.cpu_cores h.cpu)
                (rw (Parts.number_back c s.pss_bytes) refl)))))

  pane-back : (s : PaneMetrics) → IsNonnegative s.cpu_cores → read_pane c (pane_dict s) ≡ ok s
  unfolding read_pane pane_dict
  pane-back s h = rw (Parts.nonnegative_back s.cpu_cores h) refl

  system-back : (s : SystemMetrics) → IsSystem s → read_system c (system_dict s) ≡ ok s
  unfolding read_system system_dict
  system-back s h =
      let cpus : max 1 s.logical_cpus ≡ s.logical_cpus = omega (arith, h.cpus) in
      rw (Parts.percent_back c s.cpu_percent h.cpu) (
        rw (Parts.nonnegative_back s.load_1 h.load_1) (
          rw (Parts.nonnegative_back s.load_5 h.load_5) (
            rw (Parts.nonnegative_back s.load_15 h.load_15) (
              rw cpus (
                rw (Parts.nonnegative_back s.uptime_seconds h.uptime) (
                  rw (Parts.pressure_back c s.pressure h.pressure) (
                    rw (Parts.counters_back c s.vm) (
                      rw (Parts.floats_back c s.per_cpu_percent h.per_cpu)
                        (rw (Parts.floats_back c s.cpu_frequency_mhz h.frequency) refl)))))))))

  records-back :
      {A : Type 0} (P : A → Type 0) (read : Fields → Outcome A) (write : A → Fields) (xs : List A)
      → ((x : A) → P x → read (write x) ≡ ok x)
      → All P xs
      → read_records c read (record_items write xs) ≡ ok xs
  records-back P read write [] back h = refl
  records-back P read write (x ∷ xs) back h =
      rw (back x h.0) (rw (records-back P read write xs back h.1) refl)

  -- A snapshot within the bounds of the wire format is read back from the dictionary that is
  -- written for it, whatever the conversions of other values are.
  pub from_dict-to_dict : (s : Snapshot) → IsProper s → from_dict c (to_dict s) ≡ ok s
  unfolding from_dict to_dict
  from_dict-to_dict s h =
      let total : max (length s.processes) s.processes_total ≡ s.processes_total =
        omega (arith, h.total) in
      rw h.schema (
        rw
          (records-back IsProcess (read_process c) process_dict s.processes process-back
            h.processes)
          (rw (system-back s.system h.system) (
            rw
              (records-back IsThermal (read_thermal c) thermal_dict s.thermal thermal-back
                h.thermal)
              (rw (records-back IsFan (read_fan c) fan_dict s.fans fan-back h.fans) (
                rw (records-back _ (read_pane c) pane_dict s.panes pane-back h.panes)
                  (rw (take_text-all 128 s.boot_id h.boot_id) (rw total refl)))))))

-- ===== src/Wire/Write.antt =====
-- The dictionaries that `Snapshot.to_dict` of model.py builds; a tuple is an array.
use kilix_system_monitor.Prelude.{ℕ, Option, none, some, List, [], ◌∷◌}
use kilix_system_monitor.Prelude.Int.{pos}
use kilix_system_monitor.Json.{
  Json, null, bool, int, float, str, arr, obj, Items, nil, cons, Fields, end, field, Float,
}
use kilix_system_monitor.Wire.{
  Counters, Readings, Pressure, ThermalSensor, FanSensor, ProcessMetrics, SystemMetrics,
  PaneMetrics, Snapshot,
}

abbrev pub write_float : Option Float → Json
write_float none = null
write_float (some f) = float f

abbrev pub write_number : Option ℕ → Json
write_number none = null
write_number (some n) = int (pos n)

abbrev pub readings_fields : Readings → Fields
readings_fields [] = end
readings_fields ((key, f) ∷ rest) = field key (float f) (readings_fields rest)

abbrev pub pressure_fields : Pressure → Fields
pressure_fields [] = end
pressure_fields ((key, readings) ∷ rest) =
    field key (obj (readings_fields readings)) (pressure_fields rest)

abbrev pub write_pressure : Pressure → Json
write_pressure pressure = obj (pressure_fields pressure)

abbrev pub counters_fields : Counters → Fields
counters_fields [] = end
counters_fields ((key, n) ∷ rest) = field key (int (pos n)) (counters_fields rest)

abbrev pub write_counters : Counters → Json
write_counters counters = obj (counters_fields counters)

abbrev pub float_items : List (Option Float) → Items
float_items [] = nil
float_items (f ∷ fs) = cons (write_float f) (float_items fs)

abbrev pub write_floats : List (Option Float) → Json
write_floats fs = arr (float_items fs)

-- `_thermal_dict`
unfoldable pub thermal_dict : ThermalSensor → Fields
thermal_dict s = field "key" (str s.key) (
    field "chip" (str s.chip) (
      field "label" (str s.label) (
        field "source" (str s.source) (
          field "celsius" (float s.celsius) (
            field "warning_celsius" (write_float s.warning_celsius)
              (field "critical_celsius" (write_float s.critical_celsius) (end)))))))

-- `_fan_dict`
unfoldable pub fan_dict : FanSensor → Fields
fan_dict s = field "key" (str s.key) (
    field "chip" (str s.chip) (
      field "label" (str s.label)
        (field "source" (str s.source) (field "rpm" (int (pos s.rpm)) (end)))))

-- `_process_dict`
unfoldable pub process_dict : ProcessMetrics → Fields
process_dict s = field "pid" (int (pos s.pid)) (
    field "ppid" (int (pos s.ppid)) (
      field "start_ticks" (int (pos s.start_ticks)) (
        field "cpu_ticks" (int (pos s.cpu_ticks)) (
          field "cpu_cores" (float s.cpu_cores) (
            field "rss_bytes" (int (pos s.rss_bytes)) (
              field "pss_bytes" (write_number s.pss_bytes) (
                field "virtual_bytes" (int (pos s.virtual_bytes)) (
                  field "uid" (int (pos s.uid)) (
                    field "name" (str s.name) (
                      field "state" (str s.state) (
                        field "threads" (int (pos s.threads)) (
                          field "command" (str s.command) (
                            field "anon_bytes" (int (pos s.anon_bytes)) (
                              field "file_bytes" (int (pos s.file_bytes)) (
                                field "shared_bytes" (int (pos s.shared_bytes)) (end))))))))))))))))

-- `_system_dict`
unfoldable pub system_dict : SystemMetrics → Fields
system_dict s = field "cpu_percent" (write_float s.cpu_percent) (
    field "load_1" (float s.load_1) (
      field "load_5" (float s.load_5) (
        field "load_15" (float s.load_15) (
          field "logical_cpus" (int (pos s.logical_cpus)) (
            field "uptime_seconds" (float s.uptime_seconds) (
              field "memory_total" (int (pos s.memory_total)) (
                field "memory_available" (int (pos s.memory_available)) (
                  field "memory_free" (int (pos s.memory_free)) (
                    field "memory_buffers" (int (pos s.memory_buffers)) (
                      field "memory_cached" (int (pos s.memory_cached)) (
                        field "memory_reclaimable" (int (pos s.memory_reclaimable)) (
                          field "memory_shared" (int (pos s.memory_shared)) (
                            field "memory_active" (int (pos s.memory_active)) (
                              field "memory_inactive" (int (pos s.memory_inactive)) (
                                field "memory_anon" (int (pos s.memory_anon)) (
                                  field "memory_slab" (int (pos s.memory_slab)) (
                                    field "memory_page_tables" (int (pos s.memory_page_tables)) (
                                      field "memory_kernel_stack" (int (pos s.memory_kernel_stack))
                                        (field "memory_dirty" (int (pos s.memory_dirty)) (
                                          field "memory_writeback" (int (pos s.memory_writeback)) (
                                            field "swap_total" (int (pos s.swap_total)) (
                                              field "swap_free" (int (pos s.swap_free)) (
                                                field "pressure" (write_pressure s.pressure) (
                                                  field "vm" (write_counters s.vm) (
                                                    field "per_cpu_percent"
                                                      (write_floats s.per_cpu_percent)
                                                      (field "cpu_frequency_mhz"
                                                        (write_floats s.cpu_frequency_mhz)
                                                        (field "memory_huge_total"
                                                          (int (pos s.memory_huge_total))
                                                          (field "memory_huge_free"
                                                            (int (pos s.memory_huge_free))
                                                            (field "memory_huge_page_size"
                                                            (int (pos s.memory_huge_page_size))
                                                            (end))))))))))))))))))))))))))))))

-- `_pane_dict`
unfoldable pub pane_dict : PaneMetrics → Fields
pane_dict s = field "root_pid" (int (pos s.root_pid)) (
    field "process_count" (int (pos s.process_count)) (
      field "cpu_cores" (float s.cpu_cores) (
        field "rss_bytes" (int (pos s.rss_bytes)) (
          field "proportional_bytes" (int (pos s.proportional_bytes))
            (field "complete_pss" (bool s.complete_pss) (end))))))

abbrev pub record_items : {A : Type 0} → (A → Fields) → List A → Items
record_items write [] = nil
record_items write (a ∷ as') = cons (obj (write a)) (record_items write as')

-- `Snapshot.to_dict`
unfoldable pub to_dict : Snapshot → Fields
to_dict s = field "sequence" (int (pos s.sequence)) (
    field "wall_time_ns" (int (pos s.wall_time_ns)) (
      field "monotonic_ns" (int (pos s.monotonic_ns)) (
        field "interval_ns" (int (pos s.interval_ns)) (
          field "boot_id" (str s.boot_id) (
            field "system" (obj (system_dict s.system)) (
              field "thermal" (arr (record_items thermal_dict s.thermal)) (
                field "processes" (arr (record_items process_dict s.processes)) (
                  field "fans" (arr (record_items fan_dict s.fans)) (
                    field "schema" (int (pos s.schema)) (
                      field "panes" (arr (record_items pane_dict s.panes)) (
                        field "processes_total" (int (pos s.processes_total))
                          (field "processes_truncated" (bool s.processes_truncated) end))))))))))))

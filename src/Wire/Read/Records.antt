-- ===== src/Wire/Read/Records.antt =====
-- The `from_dict` methods of model.py.
use kilix_system_monitor.Prelude.{
  Bool, true, false, Option, none, some, List, [], ◌∷◌, max, ◌==◌, length,
}
use kilix_system_monitor.Json.{
  Json, str, arr, obj, Items, nil, cons, Fields, Outcome, ok, raised, Error, type_error,
  value_error, ◌>>=◌, ◌>>◌, Conversions, to_text, get, get_or,
}
use kilix_system_monitor.Json.Text.{take_text}
use kilix_system_monitor.Wire.{
  ThermalSensor, FanSensor, ProcessMetrics, SystemMetrics, PaneMetrics, Snapshot,
}
use kilix_system_monitor.Wire.Read.{
  at_least, at_most, fields_of, finite_float, is_true, items_of, nonnegative, optional_float,
  optional_floats, optional_number, percent, positive, read_counters, read_pressure, schema_version,
  text_in, zero_float,
}

module _ (c : Conversions) where
  -- `ThermalSensor.from_dict`
  unfoldable pub read_thermal : Fields → Outcome ThermalSensor
  read_thermal value = do
    celsius ← finite_float c zero_float (get "celsius" value)
    warning_celsius ← optional_float c (get "warning_celsius" value)
    critical_celsius ← optional_float c (get "critical_celsius" value)
    ok (record {
      key = text_in c 256 "key" value;
      chip = text_in c 80 "chip" value;
      label = text_in c 80 "label" value;
      source = text_in c 80 "source" value;
      celsius = celsius;
      warning_celsius = warning_celsius;
      critical_celsius = critical_celsius;
    })

  -- `FanSensor.from_dict`
  unfoldable pub read_fan : Fields → Outcome FanSensor
  read_fan value = do
    rpm ← at_most 200000 (nonnegative c (get "rpm" value))
    ok (record {
      key = text_in c 256 "key" value;
      chip = text_in c 80 "chip" value;
      label = text_in c 80 "label" value;
      source = text_in c 80 "source" value;
      rpm = rpm;
    })

  -- `ProcessMetrics.from_dict`
  unfoldable pub read_process : Fields → Outcome ProcessMetrics
  read_process value = do
    pid ← nonnegative c (get "pid" value)
    ppid ← nonnegative c (get "ppid" value)
    start_ticks ← nonnegative c (get "start_ticks" value)
    cpu_ticks ← nonnegative c (get "cpu_ticks" value)
    cpu_cores ← positive c (get "cpu_cores" value)
    rss_bytes ← nonnegative c (get "rss_bytes" value)
    pss_bytes ← optional_number c (get "pss_bytes" value)
    virtual_bytes ← nonnegative c (get "virtual_bytes" value)
    uid ← nonnegative c (get "uid" value)
    threads ← at_least 1 (nonnegative c (get "threads" value))
    anon_bytes ← nonnegative c (get "anon_bytes" value)
    file_bytes ← nonnegative c (get "file_bytes" value)
    shared_bytes ← nonnegative c (get "shared_bytes" value)
    ok (record {
      pid = pid;
      ppid = ppid;
      start_ticks = start_ticks;
      cpu_ticks = cpu_ticks;
      cpu_cores = cpu_cores;
      rss_bytes = rss_bytes;
      pss_bytes = pss_bytes;
      virtual_bytes = virtual_bytes;
      uid = uid;
      name = text_in c 80 "name" value;
      state = take_text 8 (to_text c (get_or "state" (str "?") value));
      threads = threads;
      command = text_in c 4096 "command" value;
      anon_bytes = anon_bytes;
      file_bytes = file_bytes;
      shared_bytes = shared_bytes;
    })

  -- `SystemMetrics.from_dict`
  unfoldable pub read_system : Fields → Outcome SystemMetrics
  read_system value = do
    cpu_percent ← percent c (get "cpu_percent" value)
    load_1 ← positive c (get "load_1" value)
    load_5 ← positive c (get "load_5" value)
    load_15 ← positive c (get "load_15" value)
    logical_cpus ← at_least 1 (nonnegative c (get "logical_cpus" value))
    uptime_seconds ← positive c (get "uptime_seconds" value)
    memory_total ← nonnegative c (get "memory_total" value)
    memory_available ← nonnegative c (get "memory_available" value)
    memory_free ← nonnegative c (get "memory_free" value)
    memory_buffers ← nonnegative c (get "memory_buffers" value)
    memory_cached ← nonnegative c (get "memory_cached" value)
    memory_reclaimable ← nonnegative c (get "memory_reclaimable" value)
    memory_shared ← nonnegative c (get "memory_shared" value)
    memory_active ← nonnegative c (get "memory_active" value)
    memory_inactive ← nonnegative c (get "memory_inactive" value)
    memory_anon ← nonnegative c (get "memory_anon" value)
    memory_slab ← nonnegative c (get "memory_slab" value)
    memory_page_tables ← nonnegative c (get "memory_page_tables" value)
    memory_kernel_stack ← nonnegative c (get "memory_kernel_stack" value)
    memory_dirty ← nonnegative c (get "memory_dirty" value)
    memory_writeback ← nonnegative c (get "memory_writeback" value)
    swap_total ← nonnegative c (get "swap_total" value)
    swap_free ← nonnegative c (get "swap_free" value)
    pressure ← read_pressure c (get "pressure" value)
    vm ← read_counters c (get "vm" value)
    per_cpu_percent ← optional_floats c (get_or "per_cpu_percent" (arr nil) value)
    cpu_frequency_mhz ← optional_floats c (get_or "cpu_frequency_mhz" (arr nil) value)
    memory_huge_total ← nonnegative c (get "memory_huge_total" value)
    memory_huge_free ← nonnegative c (get "memory_huge_free" value)
    memory_huge_page_size ← nonnegative c (get "memory_huge_page_size" value)
    ok (record {
      cpu_percent = cpu_percent;
      load_1 = load_1;
      load_5 = load_5;
      load_15 = load_15;
      logical_cpus = logical_cpus;
      uptime_seconds = uptime_seconds;
      memory_total = memory_total;
      memory_available = memory_available;
      memory_free = memory_free;
      memory_buffers = memory_buffers;
      memory_cached = memory_cached;
      memory_reclaimable = memory_reclaimable;
      memory_shared = memory_shared;
      memory_active = memory_active;
      memory_inactive = memory_inactive;
      memory_anon = memory_anon;
      memory_slab = memory_slab;
      memory_page_tables = memory_page_tables;
      memory_kernel_stack = memory_kernel_stack;
      memory_dirty = memory_dirty;
      memory_writeback = memory_writeback;
      swap_total = swap_total;
      swap_free = swap_free;
      pressure = pressure;
      vm = vm;
      per_cpu_percent = per_cpu_percent;
      cpu_frequency_mhz = cpu_frequency_mhz;
      memory_huge_total = memory_huge_total;
      memory_huge_free = memory_huge_free;
      memory_huge_page_size = memory_huge_page_size;
    })

  -- `PaneMetrics.from_dict`
  unfoldable pub read_pane : Fields → Outcome PaneMetrics
  read_pane value = do
    root_pid ← nonnegative c (get "root_pid" value)
    process_count ← nonnegative c (get "process_count" value)
    cpu_cores ← positive c (get "cpu_cores" value)
    rss_bytes ← nonnegative c (get "rss_bytes" value)
    proportional_bytes ← nonnegative c (get "proportional_bytes" value)
    ok (record {
      root_pid = root_pid;
      process_count = process_count;
      cpu_cores = cpu_cores;
      rss_bytes = rss_bytes;
      proportional_bytes = proportional_bytes;
      complete_pss = is_true (get "complete_pss" value);
    })

  -- `from_dict` of the items that are mappings.
  abbrev pub read_record :
      {A : Type 0} → (Fields → Outcome A) → Json → Outcome (List A) → Outcome (List A)
  read_record read (obj fields) rest = do a ← read fields; others ← rest; ok (a ∷ others)
  read_record read value rest = rest

  abbrev pub read_records : {A : Type 0} → (Fields → Outcome A) → Items → Outcome (List A)
  read_records read nil = ok []
  read_records read (cons value items) = read_record read value (read_records read items)

  abbrev pub or_raise : {A : Type 0} → Option A → Outcome A
  or_raise none = raised type_error
  or_raise (some a) = ok a

  abbrev pub demand : Bool → Error → Outcome (Unit {0})
  demand true e = ok tt
  demand false e = raised e

  -- `Snapshot.from_dict`
  unfoldable pub from_dict : Fields → Outcome Snapshot
  from_dict value = do
    schema ← nonnegative c (get "schema" value)
    demand (schema == schema_version) value_error
    raw_system ← or_raise (fields_of (get "system" value))
    raw_thermal ← or_raise (items_of (get_or "thermal" (arr nil) value))
    raw_processes ← or_raise (items_of (get_or "processes" (arr nil) value))
    raw_fans ← or_raise (items_of (get_or "fans" (arr nil) value))
    raw_panes ← or_raise (items_of (get_or "panes" (arr nil) value))
    processes ← read_records read_process raw_processes
    sequence ← nonnegative c (get "sequence" value)
    wall_time_ns ← nonnegative c (get "wall_time_ns" value)
    monotonic_ns ← nonnegative c (get "monotonic_ns" value)
    interval_ns ← nonnegative c (get "interval_ns" value)
    system ← read_system raw_system
    thermal ← read_records read_thermal raw_thermal
    fans ← read_records read_fan raw_fans
    panes ← read_records read_pane raw_panes
    total ← nonnegative c (get "processes_total" value)
    ok (record {
      sequence = sequence;
      wall_time_ns = wall_time_ns;
      monotonic_ns = monotonic_ns;
      interval_ns = interval_ns;
      boot_id = text_in c 128 "boot_id" value;
      system = system;
      thermal = thermal;
      processes = processes;
      fans = fans;
      schema = schema;
      panes = panes;
      processes_total = max (length processes) total;
      processes_truncated = is_true (get "processes_truncated" value);
    })

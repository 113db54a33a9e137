-- ===== src/Wire/Bounds/Records.antt =====
-- The bounds of each record that a `from_dict` method reads.
use kilix_system_monitor.Prelude.{◌≡◌, subst}
use kilix_system_monitor.Json.{arr, nil, Fields, ok, >>=-elim, Conversions, get, get_or}
use kilix_system_monitor.Json.Text.{text_length-take_text}
use kilix_system_monitor.Wire.{ThermalSensor, FanSensor, ProcessMetrics, SystemMetrics, PaneMetrics}
use kilix_system_monitor.Wire.Proper.{IsThermal, IsFan, IsProcess, IsSystem, IsNonnegative}
use kilix_system_monitor.Wire.Read.{
  zero_float, finite_float, nonnegative, positive, optional_float, optional_number, percent,
  read_pressure, read_counters, optional_floats, at_least, at_most,
}
use kilix_system_monitor.Wire.Read.Records.{
  read_process, read_fan, read_pane, read_thermal, read_system,
}
use kilix_system_monitor.Wire.Bounds.Parts

module _ (c : Conversions) where
  pub IsThermal-bounds :
      (value : Fields) (s : ThermalSensor) → read_thermal c value ≡ ok s → IsThermal s
  unfolding read_thermal
  IsThermal-bounds value s h =
      >>=-elim (finite_float c zero_float (get "celsius" value)) _ s h λ celsius at_celsius h1.
        >>=-elim (optional_float c (get "warning_celsius" value)) _ s h1
          λ warning_celsius at_warning_celsius h2.
            >>=-elim (optional_float c (get "critical_celsius" value)) _ s h2
              λ critical_celsius at_critical_celsius h3.
                subst IsThermal (Parts.ok-injective _ _ h3) (record {
                  key = text_length-take_text 256 _;
                  chip = text_length-take_text 80 _;
                  label = text_length-take_text 80 _;
                  source = text_length-take_text 80 _;
                  celsius = Parts.finite_float-IsReal c (get "celsius" value) celsius at_celsius;
                  warning =
                      Parts.optional_float-IsReal c (get "warning_celsius" value) warning_celsius
                        at_warning_celsius;
                  critical =
                      Parts.optional_float-IsReal c (get "critical_celsius" value) critical_celsius
                        at_critical_celsius;
                })

  pub IsFan-bounds : (value : Fields) (s : FanSensor) → read_fan c value ≡ ok s → IsFan s
  unfolding read_fan
  IsFan-bounds value s h =
      >>=-elim (at_most 200000 (nonnegative c (get "rpm" value))) _ s h λ rpm at_rpm h1.
        subst IsFan (Parts.ok-injective _ _ h1) (record {
          key = text_length-take_text 256 _;
          chip = text_length-take_text 80 _;
          label = text_length-take_text 80 _;
          source = text_length-take_text 80 _;
          rpm = Parts.at_most-le 200000 (nonnegative c (get "rpm" value)) rpm at_rpm;
        })

  pub IsProcess-bounds :
      (value : Fields) (s : ProcessMetrics) → read_process c value ≡ ok s → IsProcess s
  unfolding read_process
  IsProcess-bounds value s h = >>=-elim (nonnegative c (get "pid" value)) _ s h λ pid at_pid h1.
      >>=-elim (nonnegative c (get "ppid" value)) _ s h1 λ ppid at_ppid h2.
        >>=-elim (nonnegative c (get "start_ticks" value)) _ s h2 λ start_ticks at_start_ticks h3.
          >>=-elim (nonnegative c (get "cpu_ticks" value)) _ s h3 λ cpu_ticks at_cpu_ticks h4.
            >>=-elim (positive c (get "cpu_cores" value)) _ s h4 λ cpu_cores at_cpu_cores h5.
              >>=-elim (nonnegative c (get "rss_bytes" value)) _ s h5 λ rss_bytes at_rss_bytes h6.
                >>=-elim (optional_number c (get "pss_bytes" value)) _ s h6
                  λ pss_bytes at_pss_bytes h7.
                    >>=-elim (nonnegative c (get "virtual_bytes" value)) _ s h7
                      λ virtual_bytes at_virtual_bytes h8.
                        >>=-elim (nonnegative c (get "uid" value)) _ s h8 λ uid at_uid h9.
                          >>=-elim (at_least 1 (nonnegative c (get "threads" value))) _ s h9
                            λ threads at_threads h10.
                              >>=-elim (nonnegative c (get "anon_bytes" value)) _ s h10
                                λ anon_bytes at_anon_bytes h11.
                                  >>=-elim (nonnegative c (get "file_bytes" value)) _ s h11
                                    λ file_bytes at_file_bytes h12.
                                      >>=-elim (nonnegative c (get "shared_bytes" value)) _ s h12
                                        λ shared_bytes at_shared_bytes h13.
                                          subst IsProcess (Parts.ok-injective _ _ h13) (record {
                                            cpu =
                                                Parts.positive-IsNonnegative c
                                                  (get "cpu_cores" value) cpu_cores at_cpu_cores;
                                            name = text_length-take_text 80 _;
                                            state = text_length-take_text 8 _;
                                            threads =
                                                Parts.at_least-le 1
                                                  (nonnegative c (get "threads" value)) threads
                                                  at_threads;
                                            command = text_length-take_text 4096 _;
                                          })

  pub system-bounds : (value : Fields) (s : SystemMetrics) → read_system c value ≡ ok s → IsSystem s
  unfolding read_system
  system-bounds value s h =
      >>=-elim (percent c (get "cpu_percent" value)) _ s h λ cpu_percent at_cpu_percent h1.
        >>=-elim (positive c (get "load_1" value)) _ s h1 λ load_1 at_load_1 h2.
          >>=-elim (positive c (get "load_5" value)) _ s h2 λ load_5 at_load_5 h3.
            >>=-elim (positive c (get "load_15" value)) _ s h3 λ load_15 at_load_15 h4.
              >>=-elim (at_least 1 (nonnegative c (get "logical_cpus" value))) _ s h4
                λ logical_cpus at_logical_cpus h5.
                  >>=-elim (positive c (get "uptime_seconds" value)) _ s h5
                    λ uptime_seconds at_uptime_seconds h6.
                      >>=-elim (nonnegative c (get "memory_total" value)) _ s h6
                        λ memory_total at_memory_total h7.
                          >>=-elim (nonnegative c (get "memory_available" value)) _ s h7
                            λ memory_available at_memory_available h8.
                              >>=-elim (nonnegative c (get "memory_free" value)) _ s h8
                                λ memory_free at_memory_free h9.
                                  >>=-elim (nonnegative c (get "memory_buffers" value)) _ s h9
                                    λ memory_buffers at_memory_buffers h10.
                                      >>=-elim (nonnegative c (get "memory_cached" value)) _ s h10
                                        λ memory_cached at_memory_cached h11.
                                          >>=-elim (nonnegative c (get "memory_reclaimable" value))
                                            _ s h11
                                            λ memory_reclaimable at_memory_reclaimable h12.
                                              >>=-elim (nonnegative c (get "memory_shared" value)) _
                                                s h12
                                                λ memory_shared at_memory_shared h13.
                                                  >>=-elim
                                                    (nonnegative c (get "memory_active" value)) _ s
                                                    h13
                                                    λ memory_active at_memory_active h14.
                                                      >>=-elim
                                                        (nonnegative c
                                                          (get "memory_inactive" value))
                                                        _ s h14
                                                        λ memory_inactive at_memory_inactive h15.
                                                          >>=-elim
                                                            (nonnegative c
                                                            (get "memory_anon" value))
                                                            _ s h15
                                                            λ memory_anon at_memory_anon h16.
                                                            >>=-elim
                                                            (nonnegative c
                                                            (get "memory_slab" value))
                                                            _ s h16
                                                            λ memory_slab at_memory_slab h17.
                                                            >>=-elim
                                                            (nonnegative c
                                                            (get "memory_page_tables" value))
                                                            _ s h17
                                                            λ memory_page_tables
                                                            at_memory_page_tables h18.
                                                            >>=-elim
                                                            (nonnegative c
                                                            (get "memory_kernel_stack" value))
                                                            _ s h18
                                                            λ memory_kernel_stack
                                                            at_memory_kernel_stack h19.
                                                            >>=-elim
                                                            (nonnegative c
                                                            (get "memory_dirty" value))
                                                            _ s h19
                                                            λ memory_dirty at_memory_dirty h20.
                                                            >>=-elim
                                                            (nonnegative c
                                                            (get "memory_writeback" value))
                                                            _ s h20
                                                            λ memory_writeback at_memory_writeback
                                                            h21.
                                                            >>=-elim
                                                            (nonnegative c (get "swap_total" value))
                                                            _ s h21
                                                            λ swap_total at_swap_total h22.
                                                            >>=-elim
                                                            (nonnegative c (get "swap_free" value))
                                                            _ s h22
                                                            λ swap_free at_swap_free h23.
                                                            >>=-elim
                                                            (read_pressure c (get "pressure" value))
                                                            _ s h23
                                                            λ pressure at_pressure h24.
                                                            >>=-elim
                                                            (read_counters c (get "vm" value)) _ s
                                                            h24
                                                            λ vm at_vm h25.
                                                            >>=-elim
                                                            (optional_floats c (
                                                            get_or "per_cpu_percent" (arr nil)
                                                            value))
                                                            _ s h25
                                                            λ per_cpu_percent at_per_cpu_percent
                                                            h26.
                                                            >>=-elim
                                                            (optional_floats c (
                                                            get_or "cpu_frequency_mhz" (arr nil)
                                                            value))
                                                            _ s h26
                                                            λ cpu_frequency_mhz at_cpu_frequency_mhz
                                                            h27.
                                                            >>=-elim
                                                            (nonnegative c
                                                            (get "memory_huge_total" value))
                                                            _ s h27
                                                            λ memory_huge_total at_memory_huge_total
                                                            h28.
                                                            >>=-elim
                                                            (nonnegative c
                                                            (get "memory_huge_free" value))
                                                            _ s h28
                                                            λ memory_huge_free at_memory_huge_free
                                                            h29.
                                                            >>=-elim
                                                            (nonnegative c
                                                            (get "memory_huge_page_size" value))
                                                            _ s h29
                                                            λ memory_huge_page_size
                                                            at_memory_huge_page_size h30.
                                                            subst IsSystem
                                                            (Parts.ok-injective _ _ h30)
                                                            (record {
                                                            cpu =
                                                            Parts.percent-IsPercent c
                                                            (get "cpu_percent" value) cpu_percent
                                                            at_cpu_percent;
                                                            load_1 =
                                                            Parts.positive-IsNonnegative c
                                                            (get "load_1" value) load_1 at_load_1;
                                                            load_5 =
                                                            Parts.positive-IsNonnegative c
                                                            (get "load_5" value) load_5 at_load_5;
                                                            load_15 =
                                                            Parts.positive-IsNonnegative c
                                                            (get "load_15" value) load_15
                                                            at_load_15;
                                                            cpus =
                                                            Parts.at_least-le 1
                                                            (nonnegative c
                                                            (get "logical_cpus" value))
                                                            logical_cpus at_logical_cpus;
                                                            uptime =
                                                            Parts.positive-IsNonnegative c
                                                            (get "uptime_seconds" value)
                                                            uptime_seconds at_uptime_seconds;
                                                            pressure =
                                                            Parts.read_pressure-IsPressure c
                                                            (get "pressure" value) pressure
                                                            at_pressure;
                                                            per_cpu =
                                                            Parts.optional_floats-IsSeries c
                                                            (get_or "per_cpu_percent" (arr nil)
                                                            value)
                                                            per_cpu_percent at_per_cpu_percent;
                                                            frequency =
                                                            Parts.optional_floats-IsSeries c
                                                            (get_or "cpu_frequency_mhz" (arr nil)
                                                            value)
                                                            cpu_frequency_mhz at_cpu_frequency_mhz;
                                                            })

  pub pane-bounds :
      (value : Fields) (s : PaneMetrics) → read_pane c value ≡ ok s → IsNonnegative s.cpu_cores
  unfolding read_pane
  pane-bounds value s h =
      >>=-elim (nonnegative c (get "root_pid" value)) _ s h λ root_pid at_root_pid h1.
        >>=-elim (nonnegative c (get "process_count" value)) _ s h1
          λ process_count at_process_count h2.
            >>=-elim (positive c (get "cpu_cores" value)) _ s h2 λ cpu_cores at_cpu_cores h3.
              >>=-elim (nonnegative c (get "rss_bytes" value)) _ s h3 λ rss_bytes at_rss_bytes h4.
                >>=-elim (nonnegative c (get "proportional_bytes" value)) _ s h4
                  λ proportional_bytes at_proportional_bytes h5.
                    subst (λ s. IsNonnegative (PaneMetrics.cpu_cores s)) (Parts.ok-injective _ _ h5)
                      (Parts.positive-IsNonnegative c (get "cpu_cores" value) cpu_cores
                        at_cpu_cores)

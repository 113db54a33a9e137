-- ===== src/Sizer/Tests/Probes.antt =====
-- A listing of two GPUs.
use kilix_system_monitor.Prelude.{◌*◌, ◌≡◌, refl, map, [], ◌∷◌}
use kilix_system_monitor.Sizer.Checked.{number, ok}
use kilix_system_monitor.Sizer.Resources.{Device, check_devices, mib}
use kilix_system_monitor.Sizer.Geometry.{codes}
use kilix_system_monitor.Sizer.Nvidia.{Codes, parse_nvidia, parse_rows}
use kilix_system_monitor.Sizer.Nvidia.Accepted.{parse_nvidia-check_devices}

abbrev listing : Codes
listing = codes "0, 16384, 15000\n1, 8192, 8000\n"

parse_nvidia_run :
    map (λ d. Device.total_bytes d) (parse_nvidia listing)
    ≡ number (16384 * mib) ∷ number (8192 * mib) ∷ []
unfolding parse_nvidia parse_rows
parse_nvidia_run = refl

parse_nvidia-check_devices_example : check_devices (parse_nvidia listing) [] ≡ ok tt
parse_nvidia-check_devices_example = parse_nvidia-check_devices listing

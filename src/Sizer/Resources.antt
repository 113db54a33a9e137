-- ===== src/Sizer/Resources.antt =====
-- resources.py: the validation of a resource snapshot, and the budgets that it leaves.
pub mod Headroom
pub mod Devices
use kilix_system_monitor.Prelude.{
  ℕ, ◌-◌, ◌*◌, ◌/◌, ◌^◌, String, Bool, true, false, not, ◌&&◌, ◌||◌, Option, none, some, List, [],
  ◌∷◌, ltb, leb, ◌==◌, str_eq, keep, any, length, if◌then◌else◌,
}
use kilix_system_monitor.Sizer.Checked.{
  Value, absent, number, other, Error, out_of_range, invalid_schema, invalid_mapping, excess_ram,
  invalid_cgroup, invalid_gpus, invalid_gpu, invalid_timestamp, invalid_reserve,
  unsupported_backend, Checked, ok, err, ◌>>=◌, ◌>>◌, require, as_int,
}

abbrev pub gib : ℕ
gib = 1024 ^ 3

abbrev pub mib : ℕ
mib = 1024 ^ 2

abbrev pub schema_name : String
schema_name = "plebian.models.resources/v1-development"

pub record Device : Type 0 where
  pub index : Value
  pub total_bytes : Value
  pub available_bytes : Value
  pub backend : String

-- `gpus` is none where it is no list of objects; `observed_at` is the instant of a timestamp with a
-- timezone in microseconds, none where it is not one.
pub record Snapshot : Type 0 where
  pub schema : String
  pub cuda_device_mapping : String
  pub ram_total_bytes : Value
  pub ram_available_bytes : Value
  pub disk_available_bytes : Value
  pub cgroup_status : String
  pub gpus : Option (List Device)
  pub observed_at : Option ℕ

-- `value is not None and (type(value) is not int or not 0 <= value <= 2**63)` does not hold.
abbrev pub is_amount : Value → Bool
is_amount absent = true
is_amount (number n) = leb n (2 ^ 63)
is_amount other = false

-- Headroom within total RAM, where it is known.
abbrev pub within_total : Value → Value → Bool
within_total absent total = true
within_total (number a) (number t) = leb a t
within_total (number a) absent = false
within_total (number a) other = false
within_total other total = false

abbrev pub is_device : ℕ → ℕ → ℕ → List ℕ → String → Bool
is_device index total free seen backend =
    leb index 255
    && not (any (λ i. i == index) seen)
    && leb free total
    && leb total (2 ^ 63)
    && not (total == 0)
    && str_eq backend "cuda"

abbrev device_values : Device → List ℕ → Value → Value → Value → Checked ℕ
device_values d seen (number i) (number t) (number f) =
    if is_device i t f seen d.backend then ok i else err invalid_gpu
device_values d seen _ _ _ = err invalid_gpu

-- One observation: three integers in range, an index not seen before.
abbrev pub check_device : Device → List ℕ → Checked ℕ
check_device d seen = device_values d seen d.index d.total_bytes d.available_bytes

unfoldable pub check_devices : List Device → List ℕ → Checked (Unit {0})
check_devices [] seen = ok tt
check_devices (d ∷ devices) seen = check_device d seen >>= λ i. check_devices devices (i ∷ seen)

abbrev check_gpus : Option (List Device) → Checked (Unit {0})
check_gpus none = err invalid_gpus
check_gpus (some devices) =
    if ltb 256 (length devices) then err invalid_gpus else check_devices devices []

abbrev pub is_known : Option ℕ → Bool
is_known none = false
is_known (some t) = true

-- `validate`
unfoldable pub validate : Snapshot → Checked (Unit {0})
validate s = do
  require (str_eq s.schema schema_name) invalid_schema
  require
      (str_eq s.cuda_device_mapping "unverified"
        || str_eq s.cuda_device_mapping "single-unmasked-gpu-zero")
      invalid_mapping
  require (is_amount s.ram_total_bytes) (out_of_range "ram_total_bytes")
  require (is_amount s.ram_available_bytes) (out_of_range "ram_available_bytes")
  require (is_amount s.disk_available_bytes) (out_of_range "disk_available_bytes")
  require (within_total s.ram_available_bytes s.ram_total_bytes) excess_ram
  require
      (str_eq s.cgroup_status "unknown"
        || str_eq s.cgroup_status "limited"
        || str_eq s.cgroup_status "unlimited")
      invalid_cgroup
  check_gpus s.gpus
  require (is_known s.observed_at) invalid_timestamp

pub data Backend : Type 0 where
  auto cpu cuda : Backend

pub record Budget : Type 0 where
  pub backend : Backend
  pub gpu_index : Option ℕ
  pub fresh : Bool
  pub ram_bytes : Option ℕ
  pub vram_bytes : Option ℕ
  pub disk_bytes : Option ℕ

pub record Reserves : Type 0 where
  pub ram : ℕ
  pub vram : ℕ
  pub disk : ℕ

abbrev pub default_reserves : Reserves
default_reserves = record { ram = 2 * gib; vram = gib / 2; disk = gib }

-- 0 <= age <= 300 seconds
abbrev pub is_fresh : Option ℕ → ℕ → Bool
is_fresh none now = false
is_fresh (some t) now = leb t now && leb (now - t) (300 * 10 ^ 6)

abbrev devices_of : Option (List Device) → List Device
devices_of none = []
devices_of (some devices) = devices

abbrev is_chosen : Option ℕ → Device → Bool
is_chosen none d = true
is_chosen (some gpu) d = as_int d.index == gpu

-- `max(devices, key=available_bytes, default=None)`: the first of the largest.
abbrev larger : Device → Option Device → Option Device
larger d none = some d
larger d (some e) =
    if leb (as_int e.available_bytes) (as_int d.available_bytes) then some d else some e

unfoldable pub largest : List Device → Option Device
largest [] = none
largest (d ∷ devices) = larger d (largest devices)

-- `backend` once `auto` is decided.
abbrev resolve_backend : Backend → Option Device → Option ℕ → Backend
resolve_backend cpu device gpu = cpu
resolve_backend cuda device gpu = cuda
resolve_backend auto (some d) gpu = cuda
resolve_backend auto none (some i) = cuda
resolve_backend auto none none = cpu

abbrev pub amount_of : Value → Option ℕ
amount_of absent = none
amount_of (number n) = some n
amount_of other = none

abbrev on_cuda : Backend → Option Device → Option Device
on_cuda cuda device = device
on_cuda cpu device = none
on_cuda auto device = none

-- `max(0, available - reserve) if fresh and available is not None else None`
abbrev pub left_over : Bool → Option ℕ → ℕ → Option ℕ
left_over true (some n) reserve = some (n - reserve)
left_over true none reserve = none
left_over false n reserve = none

abbrev device_amount : Option Device → Option ℕ
device_amount none = none
device_amount (some d) = amount_of d.available_bytes

abbrev device_index : Option Device → Option ℕ
device_index none = none
device_index (some d) = some (as_int d.index)

-- The device whose memory the budget names: the largest of those asked for.
abbrev pub chosen_device : Snapshot → Option ℕ → Option Device
chosen_device s gpu = largest (keep (is_chosen gpu) (devices_of s.gpus))

-- `budgets`; negative reserves are excluded by their type.
unfoldable pub budgets : Snapshot → Backend → Option ℕ → ℕ → Reserves → Checked Budget
budgets s backend gpu now reserves = do
  validate s
  let device = chosen_device s gpu
  let resolved = resolve_backend backend device gpu
  let fresh = is_fresh s.observed_at now
  let ram = if str_eq s.cgroup_status "unknown" then none else amount_of s.ram_available_bytes
  ok (record {
    backend = resolved;
    gpu_index = device_index (on_cuda resolved device);
    fresh = fresh;
    ram_bytes = left_over fresh ram reserves.ram;
    vram_bytes = left_over fresh (device_amount (on_cuda resolved device)) reserves.vram;
    disk_bytes = left_over fresh (amount_of s.disk_available_bytes) reserves.disk;
  })

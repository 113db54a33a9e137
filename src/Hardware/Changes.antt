-- ===== src/Hardware/Changes.antt =====
-- `_path`, `_gpu_projection`, `_projection` and `snapshot_changes` of state.py.
pub mod Listed
use Prim.Native.String
use kilix_system_monitor.Prelude.{
  ℕ, zero, suc, ◌==◌, not, String, Bool, true, false, List, [], ◌∷◌, map, if◌then◌else◌,
}
use kilix_system_monitor.Prelude.Int.{ℤ, pos, negsuc}
use kilix_system_monitor.Json.{
  Float, real, infinite, nan, Json, null, bool, int, float, str, arr, obj, Items, nil, cons, Fields,
  end, field, get, get_or, Outcome, ok, raised, type_error, ◌>>=◌,
}
use kilix_system_monitor.Json.Equal.{equal}
use kilix_system_monitor.Hardware.Snapshot.{Library, validate_snapshot}

-- `_path`
abbrev pub path_of : Json → List String → Json
path_of value [] = value
path_of (obj fields) (part ∷ parts) = path_of (get part fields) parts
path_of value (part ∷ parts) = null

abbrev dict : List (String × Json) → Fields
dict [] = end
dict ((key, value) ∷ entries) = field key value (dict entries)

-- What a `for` over the value meets, less what `isinstance(_, dict)` leaves out anyway: the keys of
-- an object and the characters of a text.
abbrev each : Json → Outcome Items
each (arr items) = ok items
each (obj fields) = ok nil
each (str s) = ok nil
each value = raised type_error

-- The entries of the objects among the items, each by `project`.
abbrev projected : (Fields → Outcome Json) → Items → Outcome Items
projected project nil = ok nil
projected project (cons (obj fields) items) =
    project fields >>= λ value. projected project items >>= λ rest. ok (cons value rest)
projected project (cons value items) = projected project items

abbrev select : List String → Fields → Fields
select names fields = dict (map (λ name. (name, get name fields)) names)

abbrev backend_projection : Fields → Outcome Json
backend_projection backend = ok (obj (select ("name" ∷ "status" ∷ []) backend))

abbrev gpu_facts : List String
gpu_facts =
    "device_class" ∷ "memory_kind" ∷ "render_access" ∷ "shared_memory_bytes" ∷ "vendor"
    ∷ "vram_bytes" ∷ []

abbrev one_gpu : Fields → Outcome Json
one_gpu gpu = each (get_or "backends" (arr nil) gpu) >>= λ items.
    projected backend_projection items >>= λ backends.
    ok (obj (field "backends" (arr backends) (select gpu_facts gpu)))

-- `_gpu_projection`
unfoldable pub gpu_projection : Fields → Outcome Items
gpu_projection document =
    each (get_or "gpus" (arr nil) document) >>= λ items. projected one_gpu items

-- `bool(value)`
abbrev is_true : Json → Bool
is_true null = false
is_true (bool b) = b
is_true (int (pos n)) = not (n == 0)
is_true (int (negsuc n)) = true
is_true (float (real (pos n))) = not (n == 0)
is_true (float x) = true
is_true (str String.[]) = false
is_true (str s) = true
is_true (arr nil) = false
is_true (arr items) = true
is_true (obj end) = false
is_true (obj fields) = true

abbrev interface_facts : List String
interface_facts = "bus" ∷ "driver" ∷ "online" ∷ "type" ∷ []

abbrev one_interface : Fields → Outcome Json
one_interface interface = ok (obj (select interface_facts interface))

-- The list under "network.interfaces".
unfoldable pub interface_projection : Fields → Outcome Items
interface_projection document =
    let interfaces = path_of (obj document) ("network" ∷ "interfaces" ∷ []) in
    each (if is_true interfaces then interfaces else arr nil) >>= λ items.
    projected one_interface items

abbrev fact : Fields → String → String → String → String × Json
fact document name section key = (name, path_of (obj document) (section ∷ key ∷ []))

-- The dictionary of `_projection`, whose keys stand in sorted order.
abbrev pub facts : Fields → Items → Items → Fields
facts document gpus interfaces =
    let at = fact document in
    dict (
      at "buses.pci-devices" "buses" "pci_devices_count"
      ∷ at "buses.storage-controllers" "buses" "storage_controllers_count"
      ∷ at "buses.usb-devices" "buses" "usb_devices_count"
      ∷ at "cpu.architecture" "cpu" "architecture"
      ∷ at "cpu.effective" "cpu" "effective_cpus"
      ∷ at "cpu.isa" "cpu" "isa_features"
      ∷ at "cpu.logical" "cpu" "logical_cpus"
      ∷ at "cpu.numa" "cpu" "numa_nodes"
      ∷ at "cpu.physical-cores" "cpu" "physical_cores"
      ∷ ("gpu.capabilities", arr gpus)
      ∷ at "memory.effective-limit" "memory" "effective_limit_bytes"
      ∷ at "memory.total" "memory" "total_bytes"
      ∷ ("network.interfaces", arr interfaces)
      ∷ at "platform.firmware" "platform" "firmware_mode"
      ∷ at "platform.iommu" "platform" "iommu"
      ∷ at "platform.secure-boot" "platform" "secure_boot"
      ∷ at "power.ac" "power" "ac_online"
      ∷ at "power.battery-percent" "power" "battery_percent"
      ∷ at "power.battery-present" "power" "battery_present"
      ∷ at "pressure.cpu" "pressure" "cpu"
      ∷ at "pressure.io" "pressure" "io"
      ∷ at "pressure.memory" "pressure" "memory"
      ∷ at "storage.filesystem" "storage" "filesystem_type"
      ∷ at "storage.free" "storage" "free_bytes"
      ∷ at "storage.read-only" "storage" "read_only"
      ∷ at "storage.total" "storage" "total_bytes"
      ∷ at "thermal.fans" "thermal" "fan_count"
      ∷ at "thermal.sensors" "thermal" "sensor_count"
      ∷ ("virtualization", get "virtualization" document)
      ∷ [])

-- `_projection`
unfoldable pub projection : Fields → Outcome Fields
projection document = gpu_projection document >>= λ gpus.
    interface_projection document >>= λ interfaces. ok (facts document gpus interfaces)

-- An entry of the result of `snapshot_changes`.
pub record Change : Type 0 where
  pub name : String
  pub before : Json
  pub after : Json

abbrev pub unless : Bool → Change → List Change → List Change
unless true change rest = rest
unless false change rest = change ∷ rest

-- The entries for the keys of the first dictionary, in its order.
unfoldable pub changes : Fields → Fields → List Change
changes end others = []
changes (field key value fields) others =
    unless (equal value (get key others))
      (record { name = key; before = value; after = get key others }) (changes fields others)

-- `snapshot_changes`
unfoldable pub snapshot_changes : Library → Json → Json → Outcome (List Change)
snapshot_changes lib previous current = validate_snapshot lib previous >>= λ earlier.
    projection earlier >>= λ before. validate_snapshot lib current >>= λ later.
    projection later >>= λ after. ok (changes before after)

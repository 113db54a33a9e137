-- ===== src/Hardware/Tests.antt =====
-- A snapshot, a library that writes and reads just that one, and runs on them.
use kilix_system_monitor.Prelude.{
  ℕ, Option, none, some, ◌≡◌, ◌↔◌, ◌⊎◌, refl, Bool, true, false, List, [], ◌∷◌, ◌++◌, if◌then◌else◌,
}
use kilix_system_monitor.Prelude.Int.{pos}
use kilix_system_monitor.Json.{
  Json, bool, int, str, arr, obj, nil, cons, Fields, end, field, ok, raised, unit,
  redaction_violation, state_unavailable,
}
use kilix_system_monitor.Json.Equal.{equal, equal_items, within}
use kilix_system_monitor.Hardware.Redaction.{
  codes, same_codes, never_collected, contains_identifier, items_identify, fields_identify,
  text_identifies, validate_redaction,
}
use kilix_system_monitor.Hardware.Redaction.Clean.{Found, contains_identifier-Found}
use kilix_system_monitor.Hardware.Snapshot.{
  Library, texts, expected_privacy, is_observation, validate_snapshot, canonical_bytes,
  max_snapshot_bytes,
}
use kilix_system_monitor.Hardware.Cache.{
  present, missing, Root, File, Store, is_private, open_private_directory, read_snapshot,
  cache_status, valid,
}
use kilix_system_monitor.Hardware.Cache.Write.{Answers, private_file, write_all, write_snapshot}
use kilix_system_monitor.Hardware.Cache.Read.{read_snapshot-is_private}
use kilix_system_monitor.Hardware.Cache.Replaced.{IsKept, IsReplaced, write_snapshot-IsReplaced}
use kilix_system_monitor.Hardware.Cache.Back.{write_snapshot-read_snapshot}
use kilix_system_monitor.Hardware.Cache.History.{
  Holds, Shows, results, store_after, store_after-Holds,
}
use kilix_system_monitor.Hardware.Cache.Tidy.{IsTidy, write_snapshot-IsTidy}
use kilix_system_monitor.Hardware.Changes.{
  Change, changes, gpu_projection, interface_projection, projection, snapshot_changes,
}
use kilix_system_monitor.Hardware.Changes.Listed.{Among, IsChange, snapshot_changes-IsChange}

abbrev local_capture : Json
local_capture = obj (
    field "network_used" (bool false)
      (field "privileged" (bool false) (field "qualification_eligible" (bool false) end)))

abbrev with_cpu : Json → Fields
with_cpu cpu = field "capture" local_capture (
    field "cpu" cpu (
      field "never_collected" (arr (texts never_collected)) (
        field "privacy" expected_privacy
          (field "schema" (str "plebian.hardware/v1") (field "snapshot_id" (str "local:a") end)))))

abbrev snapshot : Fields
snapshot = with_cpu (obj (field "logical_cpus" (int (pos 8)) end))

abbrev later_snapshot : Fields
later_snapshot = with_cpu (obj (field "logical_cpus" (int (pos 4)) end))

-- Stands for the text of `snapshot`.
abbrev text : List ℕ
text = codes "{}"

abbrev no_address : List ℕ → Bool
no_address cs = false

abbrev library : Library
library = record {
  is_address = no_address;
  dumps = λ document. some text;
  loads =
      λ hook payload. if same_codes payload (text ++ (10 ∷ [])) then some (obj snapshot) else none;
}

abbrev root : Root
root = record {
  is_absolute = true;
  components =
      record { name = "state"; status = present }
      ∷ record { name = "plebian-hardware"; status = missing true }
      ∷ [];
  owned = false;
  mode = 493;
}

abbrev store : Store
store = record { root = root; cache = none; temporary = none }

abbrev answers : Answers
answers = record {
  stat_works = true;
  create_works = true;
  fchmod_works = true;
  writes = some 0 ∷ some 100 ∷ [];
  fsync_works = true;
  replace_works = true;
  directory_fsync_works = true;
  unlink_works = true;
}

abbrev written_root : Root
written_root = record {
  is_absolute = true;
  components =
      record { name = "state"; status = present }
      ∷ record { name = "plebian-hardware"; status = present }
      ∷ [];
  owned = true;
  mode = 448;
}

abbrev written_store : Store
written_store = record {
  root = written_root;
  cache = some (private_file (text ++ (10 ∷ [])));
  temporary = none;
}

snapshot_is_valid : validate_snapshot library (obj snapshot) ≡ ok snapshot
unfolding unit validate_snapshot is_observation equal equal_items within contains_identifier
    items_identify fields_identify text_identifies validate_redaction
snapshot_is_valid = refl

written_store_is_written :
    write_snapshot library answers store (obj snapshot) ≡ (written_store, ok tt)
unfolding unit validate_snapshot is_observation equal equal_items within contains_identifier
    items_identify fields_identify text_identifies validate_redaction write_snapshot write_all
    max_snapshot_bytes open_private_directory
written_store_is_written = refl

write_snapshot-read_snapshot_example :
    (read_snapshot library written_store ≡ ok snapshot)
    × (cache_status library written_store ≡ ok valid)
write_snapshot-read_snapshot_example =
    write_snapshot-read_snapshot library answers store written_store snapshot (text ++ (10 ∷ []))
      written_store_is_written refl refl

write_snapshot-IsReplaced_example :
    IsKept store (write_snapshot library answers store (obj snapshot))
    ⊎ IsReplaced library answers
        (obj snapshot)
        (write_snapshot library answers store (obj snapshot))
write_snapshot-IsReplaced_example = write_snapshot-IsReplaced library answers store (obj snapshot)

read_snapshot-is_private_example :
    (file : File) × (written_store.cache ≡ some file)
    × (is_private file ≡ true)
    × (canonical_bytes library snapshot ≡ ok file.bytes)
    × (contains_identifier library.is_address (obj snapshot) ≡ false)
read_snapshot-is_private_example = read_snapshot-is_private library written_store snapshot (
    (write_snapshot-read_snapshot library answers store written_store snapshot (text ++ (10 ∷ []))
      written_store_is_written refl refl).0)

-- The serial number of a part.
abbrev with_serial : Json
with_serial = arr (cons (obj (field "Serial-Number" (str "x") end)) nil)

contains_identifier-Found_example :
    (contains_identifier no_address with_serial ≡ true) ↔ Found no_address with_serial
contains_identifier-Found_example = contains_identifier-Found no_address with_serial

with_serial_is_refused : validate_redaction no_address with_serial ≡ raised redaction_violation
unfolding validate_redaction
with_serial_is_refused = refl

with_serial_identifies : contains_identifier no_address with_serial ≡ true
unfolding contains_identifier items_identify fields_identify text_identifies
with_serial_identifies = refl

-- Texts that identify a machine or a user, and two that only look so.
abbrev addresses : List Bool
addresses =
    text_identifies no_address "at 192.168.0.12:80"
    ∷ text_identifies no_address "at 1192.168.0.12"
    ∷ text_identifies no_address "0aA0:00:00:00:5e:01"
    ∷ text_identifies no_address "in 00:00:00:00:5E:01,"
    ∷ text_identifies no_address "/home/user"
    ∷ []

addresses_test : addresses ≡ (true ∷ false ∷ false ∷ true ∷ true ∷ [])
unfolding text_identifies
addresses_test = refl

abbrev cpu_change : Change
cpu_change = record { name = "cpu.logical"; before = int (pos 8); after = int (pos 4) }

cpu_change_is_listed :
    snapshot_changes library (obj snapshot) (obj later_snapshot) ≡ ok (cpu_change ∷ [])
unfolding unit validate_snapshot is_observation equal equal_items within contains_identifier
    items_identify fields_identify text_identifies validate_redaction snapshot_changes projection
    gpu_projection interface_projection changes
cpu_change_is_listed = refl

snapshot_changes-IsChange_example :
    (earlier : Fields) × (later : Fields) × (before : Fields) × (after : Fields)
    × (validate_snapshot library (obj snapshot) ≡ ok earlier)
    × (validate_snapshot library (obj later_snapshot) ≡ ok later)
    × (projection earlier ≡ ok before)
    × (projection later ≡ ok after)
    × ((c : Change) → Among c (cpu_change ∷ []) ↔ IsChange before after c)
snapshot_changes-IsChange_example =
    snapshot_changes-IsChange library (obj snapshot) (obj later_snapshot) (cpu_change ∷ [])
      cpu_change_is_listed

-- The disk is full behind the first byte.
abbrev full_disk : Answers
full_disk = record answers { writes = some 0 ∷ none ∷ [] }

full_disk_raises :
    write_snapshot library full_disk store (obj snapshot)
    ≡ (record written_store { cache = none }, raised state_unavailable)
unfolding unit validate_snapshot is_observation equal equal_items within contains_identifier
    items_identify fields_identify text_identifies validate_redaction write_snapshot write_all
    max_snapshot_bytes open_private_directory
full_disk_raises = refl

write_snapshot-IsTidy_example : IsTidy (write_snapshot library full_disk store (obj snapshot))
write_snapshot-IsTidy_example =
    write_snapshot-IsTidy library full_disk store (obj snapshot) refl refl

abbrev two_writes : List (Answers × Fields)
two_writes = (answers, snapshot) ∷ (full_disk, snapshot) ∷ []

store_after-Holds_example :
    (final : Option Fields) × Holds none (results library store two_writes) final
    × Shows library (store_after library store two_writes) final
store_after-Holds_example =
    store_after-Holds library none store two_writes refl
      ((text ++ (10 ∷ []), refl, refl), ((text ++ (10 ∷ []), refl, refl), tt))

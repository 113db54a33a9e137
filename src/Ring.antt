-- ===== src/Ring.antt =====
-- The telemetry ring (components/kilix-telemetry/src/kilix_telemetry/ring.py): one writer, many
-- readers of a mapped file. The file is its header, and the slots by their index; `struct` packs
-- each header field at its width, so the numbers are those that fit their fields.
pub mod Exchange
pub mod Fit
pub mod Layout
pub mod Copy
pub mod Latest
pub mod History
mod Tests
use kilix_system_monitor.Prelude.{
  ℕ, zero, suc, ◌+◌, ◌-◌, ◌*◌, ◌%◌, ◌^◌, min, max, String, Bool, true, false, not, ◌&&◌, ◌||◌,
  Option, none, some, List, [], ◌∷◌, ◌++◌, leb, ltb, ◌==◌, str_eq, keep, length, if◌then◌else◌,
}

abbrev pub Bytes : Type 0
Bytes = List ℕ

abbrev pub header_size : ℕ
header_size = 4096

abbrev pub min_slot_size : ℕ
min_slot_size = 64 * 1024

abbrev pub max_slot_size : ℕ
max_slot_size = 4 * 1024 * 1024

abbrev pub max_slot_count : ℕ
max_slot_count = 256

abbrev pub slot_header_size : ℕ
slot_header_size = 64

abbrev pub ring_magic : String
ring_magic = "KILIXTELEMETRY\0\0"

pub record Header : Type 0 where
  pub magic : String
  pub major : ℕ
  pub header_bytes : ℕ
  pub slot_count : ℕ
  pub slot_size : ℕ
  pub latest : ℕ
  pub started_ns : ℕ
  pub heartbeat : ℕ

pub record SlotHeader : Type 0 where
  pub sequence : ℕ
  pub monotonic_ns : ℕ
  pub wall_time_ns : ℕ
  pub flags : ℕ
  pub payload_size : ℕ
  pub raw_size : ℕ
  pub checksum : ℕ
  pub tail_sequence : ℕ

-- `body` is the rest of the slot.
pub record Slot : Type 0 where
  pub header : SlotHeader
  pub body : Bytes

pub record Ring : Type 0 where
  pub size : ℕ
  pub header : Header
  pub slots : ℕ → Slot

-- `_slot_parameters` does not raise.
abbrev pub slot_parameters : ℕ → ℕ → Bool
slot_parameters slot_count slot_size =
    leb 2 slot_count
    && leb slot_count max_slot_count
    && leb min_slot_size slot_size
    && leb slot_size max_slot_size

-- The checks of `_header`.
abbrev pub is_open : Ring → Bool
is_open r =
    str_eq r.header.magic ring_magic
    && r.header.major == 1
    && r.header.header_bytes == header_size
    && slot_parameters r.header.slot_count r.header.slot_size
    && header_size + r.header.slot_count * r.header.slot_size == r.size

abbrev pub slot_index : ℕ → ℕ → ℕ
slot_index slot_count sequence = (sequence - 1) % slot_count

-- Where the slot of a sequence number starts in the file.
abbrev pub offset : ℕ → ℕ → ℕ → ℕ
offset slot_count slot_size sequence = header_size + slot_index slot_count sequence * slot_size

abbrev pub take : ℕ → Bytes → Bytes
take zero bytes = []
take (suc n) [] = []
take (suc n) (b ∷ bytes) = b ∷ take n bytes

abbrev pub drop : ℕ → Bytes → Bytes
drop zero bytes = bytes
drop (suc n) [] = []
drop (suc n) (b ∷ bytes) = drop n bytes

abbrev pub set_slot : ℕ → Slot → (ℕ → Slot) → ℕ → Slot
set_slot i slot slots j = if j == i then slot else slots j

abbrev pub empty_header : SlotHeader
empty_header = record {
  sequence = 0;
  monotonic_ns = 0;
  wall_time_ns = 0;
  flags = 0;
  payload_size = 0;
  raw_size = 0;
  checksum = 0;
  tail_sequence = 0;
}

abbrev pub with_slots : (ℕ → Slot) → Ring → Ring
with_slots slots r = record { size = r.size; header = r.header; slots = slots }

-- The three writes of `publish` to its slot.
abbrev pub clear_slot : ℕ → Ring → Ring
clear_slot i r =
    with_slots (set_slot i (record { header = empty_header; body = (r.slots i).body }) r.slots) r

abbrev pub write_payload : ℕ → Bytes → Ring → Ring
write_payload i payload r =
    let slot = r.slots i in
    with_slots
      (set_slot i
        (record { header = slot.header; body = payload ++ drop (length payload) slot.body })
        r.slots)
      r

abbrev pub write_slot : ℕ → SlotHeader → Ring → Ring
write_slot i h r =
    with_slots (set_slot i (record { header = h; body = (r.slots i).body }) r.slots) r

-- `_write_header`
abbrev pub write_header : ℕ → ℕ → Ring → Ring
write_header latest heartbeat r = record {
  size = r.size;
  header = record {
    magic = ring_magic;
    major = 1;
    header_bytes = header_size;
    slot_count = r.header.slot_count;
    slot_size = r.header.slot_size;
    latest = latest;
    started_ns = r.header.started_ns;
    heartbeat = heartbeat;
  };
  slots = r.slots;
}

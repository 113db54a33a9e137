-- ===== src/Ring/Exchange.antt =====
-- Publishing to the ring and reading from it, over the libraries that encode a snapshot.
use kilix_system_monitor.Prelude.{
  ℕ, zero, suc, ◌+◌, ◌-◌, ◌*◌, ◌%◌, ◌^◌, min, max, Bool, not, ◌&&◌, Option, none, some, List, [],
  ◌∷◌, ◌++◌, leb, ltb, ◌==◌, keep, length, if◌then◌else◌,
}
use kilix_system_monitor.Ring.{
  Bytes, max_slot_size, slot_header_size, SlotHeader, Ring, is_open, slot_index, take, clear_slot,
  write_payload, write_slot, write_header,
}

-- What `_fit` returns.
pub record Packed : Type 0 where
  pub payload : Bytes
  pub flags : ℕ
  pub raw_size : ℕ

pub data Stage : Type 0 where
  untouched cleared written sealed : Stage

-- json, zlib and the conversions of model.py, with the three fields of a snapshot that ring.py
-- reads.
pub record Codec : Type 1 where
  pub Snapshot : Type 0
  pub sequence : Snapshot → ℕ
  pub monotonic_ns : Snapshot → ℕ
  pub wall_time_ns : Snapshot → ℕ
  pub dumps : Snapshot → Bytes
  pub loads : Bytes → Option Snapshot
  pub compress : Bytes → Bytes
  pub decompress : Bytes → Option Bytes
  pub crc32 : Bytes → ℕ

-- `_pack`
unfoldable pub pack : (Bytes → Bytes) → Bytes → Packed
pack compress raw =
    if ltb (length (compress raw)) (length raw)
    then record { payload = compress raw; flags = 1; raw_size = length raw }
    else record { payload = raw; flags = 0; raw_size = length raw }

module _ (c : Codec) where
  abbrev pub checksum_of : Bytes → ℕ
  checksum_of payload = c.crc32 payload % 2 ^ 32

  abbrev pub stored_sequence : c.Snapshot → ℕ
  stored_sequence s = max 1 (c.sequence s)

  abbrev pub slot_header : c.Snapshot → Packed → SlotHeader
  slot_header s p = record {
    sequence = stored_sequence s;
    monotonic_ns = c.monotonic_ns s;
    wall_time_ns = c.wall_time_ns s;
    flags = p.flags;
    payload_size = length p.payload;
    raw_size = p.raw_size;
    checksum = checksum_of p.payload;
    tail_sequence = stored_sequence s;
  }

  abbrev pub slot_of : c.Snapshot → Ring → ℕ
  slot_of s r = slot_index r.header.slot_count (stored_sequence s)

  -- The file after each of the four writes of `publish`, under the lock.
  abbrev pub cleared_ring : c.Snapshot → Ring → Ring
  cleared_ring s r = clear_slot (slot_of s r) r

  abbrev pub written_ring : c.Snapshot → Packed → Ring → Ring
  written_ring s p r = write_payload (slot_of s r) p.payload (cleared_ring s r)

  abbrev pub sealed_ring : c.Snapshot → Packed → Ring → Ring
  sealed_ring s p r = write_slot (slot_of s r) (slot_header s p) (written_ring s p r)

  -- `publish`, of a payload that `_fit` made, where each number fits its packed field: the
  -- `struct.error` of a larger one is not modelled.
  unfoldable pub publish : c.Snapshot → Packed → ℕ → Ring → Ring
  publish s p now r =
      write_header (stored_sequence s) (max now (c.monotonic_ns s)) (sealed_ring s p r)

  -- The file that a writer leaves which dies before the last write.
  abbrev pub publish_until : Stage → c.Snapshot → Packed → Ring → Ring
  publish_until untouched s p r = r
  publish_until cleared s p r = cleared_ring s r
  publish_until written s p r = written_ring s p r
  publish_until sealed s p r = sealed_ring s p r

  abbrev pub is_consistent : ℕ → ℕ → SlotHeader → Bool
  is_consistent expected slot_size h =
      h.sequence == expected
      && h.tail_sequence == expected
      && not (h.payload_size == 0)
      && leb h.payload_size (slot_size - slot_header_size)
      && not (h.raw_size == 0)
      && leb h.raw_size (16 * max_slot_size)
      && leb h.flags 1

  -- `_copy_slot`
  unfoldable pub copy_slot : ℕ → Ring → Option (SlotHeader × Bytes)
  copy_slot expected r =
      let slot = r.slots (slot_index r.header.slot_count expected) in
      if not (expected == 0) && is_consistent expected r.header.slot_size slot.header
      then some (slot.header, take slot.header.payload_size slot.body)
      else none

  abbrev pub raw_of : ℕ → Bytes → Option Bytes
  raw_of flags payload = if flags == 1 then c.decompress payload else some payload

  abbrev pub load : ℕ → Option Bytes → Option c.Snapshot
  load raw_size none = none
  load raw_size (some raw) = if length raw == raw_size then c.loads raw else none

  abbrev pub matching : SlotHeader → Option c.Snapshot → Option c.Snapshot
  matching h none = none
  matching h (some s) =
      if c.sequence s == h.sequence
        && c.monotonic_ns s == h.monotonic_ns
        && c.wall_time_ns s == h.wall_time_ns
      then some s
      else none

  -- `_parse_slot`
  unfoldable pub parse_slot : SlotHeader → Bytes → Option c.Snapshot
  parse_slot h payload =
      if checksum_of payload == h.checksum
      then matching h (load h.raw_size (raw_of h.flags payload))
      else none

  abbrev pub parse_copy : Option (SlotHeader × Bytes) → Option c.Snapshot
  parse_copy none = none
  parse_copy (some (h, payload)) = parse_slot h payload

  -- The snapshot of one sequence number.
  abbrev pub read_slot : ℕ → Ring → Option c.Snapshot
  read_slot expected r = parse_copy (copy_slot expected r)

  abbrev pub recent : Option ℕ → ℕ → Option c.Snapshot → Option c.Snapshot
  recent max_age now none = none
  recent none now (some s) = some s
  recent (some age) now (some s) =
      if leb (c.monotonic_ns s) now && leb (now - c.monotonic_ns s) age then some s else none

  -- `latest`: none inside where no fresh snapshot is there, none outside for `RingUnavailable`; ages
  -- are nanoseconds.
  unfoldable pub latest : Option ℕ → ℕ → Ring → Option (Option c.Snapshot)
  latest max_age now r =
      if is_open r then some (recent max_age now (read_slot r.header.latest r)) else none

  abbrev pub add_found : Option c.Snapshot → List c.Snapshot → List c.Snapshot
  add_found none found = found
  add_found (some s) found = found ++ s ∷ []

  -- The snapshots of `count` sequence numbers up to `expected`, the oldest first.
  abbrev pub snapshots_to : ℕ → ℕ → Ring → List c.Snapshot
  snapshots_to expected zero r = []
  snapshots_to expected (suc count) r =
      add_found (read_slot expected r) (snapshots_to (expected - 1) count r)

  abbrev pub requested : Ring → Option ℕ → ℕ
  requested r none = r.header.slot_count
  requested r (some limit) = min r.header.slot_count limit

  abbrev not_older : Option ℕ → ℕ → List c.Snapshot → List c.Snapshot
  not_older none now found = found
  not_older (some age) now found = keep (λ s. leb now (c.monotonic_ns s + age)) found

  -- `history`
  unfoldable pub history : Option ℕ → Option ℕ → ℕ → Ring → Option (List c.Snapshot)
  history limit max_age now r =
      if is_open r
      then some (
          not_older max_age now
            (snapshots_to r.header.latest (min r.header.latest (requested r limit)) r))
      else none

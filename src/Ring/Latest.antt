-- ===== src/Ring/Latest.antt =====
-- What readers find after a publication.
use kilix_system_monitor.Prelude.{
  ℕ, ◌-◌, ◌*◌, ◌≤◌, ◌≡◌, refl, sym, ◌∙◌, ap, true, not, ◌&&◌, none, some, ltb, ◌==◌, length, ==_iff,
  arith, inl, inr, Bool-cases,
}
use kilix_system_monitor.Ring.{
  Bytes, Ring, Slot, is_open, slot_index, take, max_slot_size, slot_header_size,
}
use kilix_system_monitor.Ring.Exchange.{
  Codec, Packed, pack, publish, copy_slot, parse_slot, read_slot, latest, stored_sequence, slot_of,
  slot_header, cleared_ring, written_ring, checksum_of, raw_of, matching, is_consistent, parse_copy,
  recent,
}
use kilix_system_monitor.Ring.Copy.{take-append, set_slot-same}

module _ (c : Codec) where
  -- A payload of `s` that the slots of `r` can hold and the readers accept, with a codec that gives
  -- `s` back.
  abbrev pub IsPublishable : Ring → c.Snapshot → Type 0
  IsPublishable r s =
      let p = pack c.compress (c.dumps s) in
      (1 ≤ c.sequence s)
      × (1 ≤ length p.payload)
      × (length p.payload ≤ r.header.slot_size - slot_header_size)
      × (1 ≤ length (c.dumps s))
      × (length (c.dumps s) ≤ 16 * max_slot_size)
      × (c.decompress (c.compress (c.dumps s)) ≡ some (c.dumps s))
      × (c.loads (c.dumps s) ≡ some s)

  pack-raw :
      (s : c.Snapshot)
      → c.decompress (c.compress (c.dumps s)) ≡ some (c.dumps s)
      → (raw_of c (pack c.compress (c.dumps s)).flags (pack c.compress (c.dumps s)).payload
          ≡ some (c.dumps s))
        × ((pack c.compress (c.dumps s)).raw_size ≡ length (c.dumps s))
        × ((pack c.compress (c.dumps s)).flags ≤ 1)
  unfolding pack
  pack-raw s h = elim (Bool-cases (ltb (length (c.compress (c.dumps s))) (length (c.dumps s)))) [
    | inl e ↦ rw e (h, refl, omega arith)
    | inr e ↦ rw e (refl, refl, omega arith)
  ]

  matching-own :
      (s : c.Snapshot)
      → stored_sequence c s ≡ c.sequence s
      → matching c (slot_header c s (pack c.compress (c.dumps s))) (some s) ≡ some s
  matching-own s h =
      rw ((==_iff (c.sequence s) _).1 (sym h))
        (rw ((==_iff (c.monotonic_ns s) _).1 refl) (rw ((==_iff (c.wall_time_ns s) _).1 refl) refl))

  parse-packed :
      (r : Ring) (s : c.Snapshot)
      → IsPublishable r s
      → parse_slot c
          (slot_header c s (pack c.compress (c.dumps s)))
          (pack c.compress (c.dumps s)).payload
        ≡ some s
  unfolding parse_slot
  parse-packed r s h =
      let (pos, _, _, _, _, back, loaded) = h in
      let (raw, size, _) = pack-raw s back in
      let same : stored_sequence c s ≡ c.sequence s = omega (arith, pos) in
      rw ((==_iff (checksum_of c (pack c.compress (c.dumps s)).payload) _).1 refl) (
        rw raw
          (rw size (rw ((==_iff (length (c.dumps s)) _).1 refl) (rw loaded (matching-own s same)))))

  copy_slot-of :
      (e : ℕ) (r : Ring) (slot : Slot) (bytes : Bytes)
      → r.slots (slot_index r.header.slot_count e) ≡ slot
      → (not (e == 0) && is_consistent c e r.header.slot_size slot.header) ≡ true
      → take slot.header.payload_size slot.body ≡ bytes
      → copy_slot c e r ≡ some (slot.header, bytes)
  unfolding copy_slot
  copy_slot-of e r slot bytes at test body = rw at (rw test (rw body refl))

  consistent-own :
      (r : Ring) (s : c.Snapshot)
      → IsPublishable r s
      → (not (stored_sequence c s == 0)
          && is_consistent c
              (stored_sequence c s)
              r.header.slot_size
              (slot_header c s (pack c.compress (c.dumps s))))
        ≡ true
  consistent-own r s h =
      let (pos, some_bytes, fits, some_raw, raw_fits, back, loaded) = h in
      let (raw, size, flag) = pack-raw s back in ground arith

  written-body :
      (s : c.Snapshot) (p : Packed) (r : Ring)
      → take (length p.payload) ((written_ring c s p r).slots (slot_of c s r)).body ≡ p.payload
  written-body s p r =
      ap (λ slot. take (length p.payload) (Slot.body slot))
        (set_slot-same (slot_of c s r) _ (cleared_ring c s r).slots)
      ∙ take-append p.payload _

  copy-own :
      (r : Ring) (s : c.Snapshot) (now : ℕ)
      → IsPublishable r s
      → copy_slot c (stored_sequence c s) (publish c s (pack c.compress (c.dumps s)) now r)
        ≡ some
            (slot_header c s (pack c.compress (c.dumps s)), (pack c.compress (c.dumps s)).payload)
  unfolding publish
  copy-own r s now h =
      let p = pack c.compress (c.dumps s) in
      copy_slot-of (stored_sequence c s) (publish c s p now r)
        (record {
          header = slot_header c s p;
          body = ((written_ring c s p r).slots (slot_of c s r)).body;
        })
        p.payload (set_slot-same (slot_of c s r) _ (written_ring c s p r).slots)
        (consistent-own r s h) (written-body s p r)

  pub read-own :
      (r : Ring) (s : c.Snapshot) (now : ℕ)
      → IsPublishable r s
      → read_slot c (stored_sequence c s) (publish c s (pack c.compress (c.dumps s)) now r) ≡ some s
  read-own r s now h = ap (parse_copy c) (copy-own r s now h) ∙ parse-packed r s h

  pub publish-is_open :
      (s : c.Snapshot) (p : Packed) (now : ℕ) (r : Ring)
      → is_open r ≡ true
      → is_open (publish c s p now r) ≡ true
  unfolding publish
  publish-is_open s p now r h = ground arith

  latest-open :
      (s : c.Snapshot) (p : Packed) (now t : ℕ) (r : Ring)
      → is_open r ≡ true
      → latest c none t (publish c s p now r)
        ≡ some (recent c none t (read_slot c (stored_sequence c s) (publish c s p now r)))
  unfolding latest publish
  latest-open s p now t r h = rw (publish-is_open s p now r h) refl

  -- In an open ring a snapshot whose payload fits its slot is what `latest` gives, without an age,
  -- right after it was published, for libraries that give back what they encoded.
  pub latest-publish :
      (r : Ring) (s : c.Snapshot) (now t : ℕ)
      → is_open r ≡ true
      → IsPublishable r s
      → latest c none t (publish c s (pack c.compress (c.dumps s)) now r) ≡ some (some s)
  latest-publish r s now t h k =
      latest-open s (pack c.compress (c.dumps s)) now t r h
      ∙ ap (λ found. some (recent c none t found)) (read-own r s now k)

-- ===== src/Ring/Copy.antt =====
-- What readers find while a slot is written, and after it.
use kilix_system_monitor.Prelude.{
  ℕ, ◌+◌, ◌≤◌, ◌<◌, ◌≡◌, ◌≢◌, refl, ◌∙◌, ap, Option, [], ◌∷◌, ◌++◌, ◌==◌, length, ==_iff, arith,
  inl, inr, Bool-cases,
}
use kilix_system_monitor.Ring.{Bytes, Ring, Slot, slot_index, take, set_slot}
use kilix_system_monitor.Ring.Exchange.{
  Codec, Packed, publish, Stage, untouched, cleared, written, sealed, publish_until, copy_slot,
  read_slot, latest, slot_of, cleared_ring, written_ring, sealed_ring, stored_sequence,
}
use kilix_system_monitor.Ring.Layout.{slot_index-differ}

pub take-append : (p q : Bytes) → take (length p) (p ++ q) ≡ p
take-append [] q = refl
take-append (b ∷ p) q = ap (λ bytes. b ∷ bytes) (take-append p q)

pub set_slot-same : (i : ℕ) (slot : Slot) (slots : ℕ → Slot) → set_slot i slot slots i ≡ slot
set_slot-same i slot slots = rw ((==_iff i i).1 refl) refl

set_slot-other :
    (i j : ℕ) (slot : Slot) (slots : ℕ → Slot) → j ≢ i → set_slot i slot slots j ≡ slots j
set_slot-other i j slot slots h = elim (Bool-cases (j == i)) [
  | inl e ↦ absurd (h ((==_iff j i).0 e))
  | inr e ↦ rw e refl
]

module _ (c : Codec) where
  cleared-slots :
      (s : c.Snapshot) (r : Ring) (j : ℕ)
      → j ≢ slot_of c s r
      → (cleared_ring c s r).slots j ≡ r.slots j
  cleared-slots s r j h = set_slot-other _ j _ r.slots h

  written-slots :
      (s : c.Snapshot) (p : Packed) (r : Ring) (j : ℕ)
      → j ≢ slot_of c s r
      → (written_ring c s p r).slots j ≡ r.slots j
  written-slots s p r j h =
      set_slot-other _ j _ (cleared_ring c s r).slots h ∙ cleared-slots s r j h

  sealed-slots :
      (s : c.Snapshot) (p : Packed) (r : Ring) (j : ℕ)
      → j ≢ slot_of c s r
      → (sealed_ring c s p r).slots j ≡ r.slots j
  sealed-slots s p r j h =
      set_slot-other _ j _ (written_ring c s p r).slots h ∙ written-slots s p r j h

  publish_until-slots :
      (k : Stage) (s : c.Snapshot) (p : Packed) (r : Ring) (j : ℕ)
      → j ≢ slot_of c s r
      → (publish_until c k s p r).slots j ≡ r.slots j
  publish_until-slots untouched s p r j h = refl
  publish_until-slots cleared s p r j h = cleared-slots s r j h
  publish_until-slots written s p r j h = written-slots s p r j h
  publish_until-slots sealed s p r j h = sealed-slots s p r j h

  publish_until-header :
      (k : Stage) (s : c.Snapshot) (p : Packed) (r : Ring)
      → (publish_until c k s p r).header ≡ r.header
  publish_until-header untouched s p r = refl
  publish_until-header cleared s p r = refl
  publish_until-header written s p r = refl
  publish_until-header sealed s p r = refl

  publish_until-size :
      (k : Stage) (s : c.Snapshot) (p : Packed) (r : Ring) → (publish_until c k s p r).size ≡ r.size
  publish_until-size untouched s p r = refl
  publish_until-size cleared s p r = refl
  publish_until-size written s p r = refl
  publish_until-size sealed s p r = refl

  -- What a reader finds depends on the geometry and on one slot.
  read_slot-same :
      (e : ℕ) (r q : Ring)
      → q.header.slot_count ≡ r.header.slot_count
      → q.header.slot_size ≡ r.header.slot_size
      → q.slots (slot_index r.header.slot_count e) ≡ r.slots (slot_index r.header.slot_count e)
      → read_slot c e q ≡ read_slot c e r
  unfolding copy_slot
  read_slot-same e r q count size slot = rw count (rw size (rw slot refl))

  -- A sequence number other than the one published, and less than a turn of the ring away from it.
  abbrev pub IsOther : Ring → c.Snapshot → ℕ → Type 0
  IsOther r s e =
      (1 ≤ r.header.slot_count)
      × (1 ≤ e)
      × (e ≢ stored_sequence c s)
      × (e < stored_sequence c s + r.header.slot_count)
      × (stored_sequence c s < e + r.header.slot_count)

  other-slot :
      (r : Ring) (s : c.Snapshot) (e : ℕ)
      → IsOther r s e
      → slot_index r.header.slot_count e ≢ slot_of c s r
  other-slot r s e h =
      let (pos, pe, differ, near, near') = h in
      slot_index-differ r.header.slot_count e (stored_sequence c s) pos pe (omega arith) differ near
        near'

  read-publish_until-other :
      (k : Stage) (s : c.Snapshot) (p : Packed) (r : Ring) (e : ℕ)
      → IsOther r s e
      → read_slot c e (publish_until c k s p r) ≡ read_slot c e r
  read-publish_until-other k s p r e h =
      let at = publish_until-header k s p r in
      read_slot-same e r (publish_until c k s p r) (ap (λ h. h.slot_count) at)
        (ap (λ h. h.slot_size) at)
        (publish_until-slots k s p r (slot_index r.header.slot_count e) (other-slot r s e h))

  -- A publication leaves every other snapshot less than a turn of the ring away as it was.
  pub read-publish-other :
      (s : c.Snapshot) (p : Packed) (now : ℕ) (r : Ring) (e : ℕ)
      → IsOther r s e
      → read_slot c e (publish c s p now r) ≡ read_slot c e r
  unfolding publish
  read-publish-other s p now r e h =
      read_slot-same e r (publish c s p now r) refl refl
        (sealed-slots s p r (slot_index r.header.slot_count e) (other-slot r s e h))

  -- A writer that dies before its last write leaves `latest` as it was, where it was publishing
  -- another sequence number less than a turn of the ring away.
  pub latest-publish_until :
      (k : Stage) (s : c.Snapshot) (p : Packed) (r : Ring) (max_age : Option ℕ) (now : ℕ)
      → IsOther r s r.header.latest
      → latest c max_age now (publish_until c k s p r) ≡ latest c max_age now r
  unfolding latest
  latest-publish_until k s p r max_age now h = rw (publish_until-header k s p r) (
      rw (publish_until-size k s p r)
        (rw (read-publish_until-other k s p r r.header.latest h) refl))

-- ===== src/Ring/History.antt =====
-- The history as a circular buffer.
use kilix_system_monitor.Prelude.{
  ℕ, zero, suc, ◌+◌, ◌-◌, ◌≤◌, ◌<◌, ◌≡◌, refl, ◌∙◌, ap, true, none, some, List, [], ◌∷◌, ◌++◌,
  arith,
}
use kilix_system_monitor.Ring.{Ring, is_open}
use kilix_system_monitor.Ring.Exchange.{
  Codec, Packed, pack, publish, history, snapshots_to, stored_sequence, add_found,
}
use kilix_system_monitor.Ring.Copy.{read-publish-other}
use kilix_system_monitor.Ring.Latest.{IsPublishable, publish-is_open, read-own}

module _ (c : Codec) where
  -- The snapshots behind a publication, as far back as the ring reaches, stay the same.
  snapshots-publish :
      (s : c.Snapshot) (p : Packed) (now : ℕ) (r : Ring) (e n : ℕ)
      → 1 ≤ r.header.slot_count
      → n ≤ e
      → e < stored_sequence c s
      → stored_sequence c s + n ≤ e + r.header.slot_count
      → snapshots_to c e n (publish c s p now r) ≡ snapshots_to c e n r
  snapshots-publish s p now r e zero pos le lt near = refl
  snapshots-publish s p now r e (suc n) pos le lt near =
      rw
        (read-publish-other c s p now r e (
          pos,
          omega (arith, le),
          (λ same. omega (arith, same, lt)),
          omega (arith, lt),
          omega (arith, near),
        ))
        (rw
          (snapshots-publish s p now r (e - 1) n pos (omega (arith, le)) (omega (arith, lt))
            (omega (arith, near, le)))
          refl)

  history-open :
      (r : Ring) (n t : ℕ)
      → is_open r ≡ true
      → n ≤ r.header.slot_count
      → n ≤ r.header.latest
      → history c (some n) none t r ≡ some (snapshots_to c r.header.latest n r)
  unfolding history
  history-open r n t h le le' =
      rw h (ap (λ k. some (snapshots_to c r.header.latest k r)) (omega (arith, le, le')))

  -- Publishing the next sequence number in an open ring appends to the history: asked for one
  -- snapshot more, up to the number of slots, it is the history from before with the new snapshot
  -- at its end.
  pub history-publish :
      (r : Ring) (s : c.Snapshot) (n now t : ℕ)
      → is_open r ≡ true
      → IsPublishable c r s
      → c.sequence s ≡ suc r.header.latest
      → n < r.header.slot_count
      → n ≤ r.header.latest
      → (before : List c.Snapshot) × (history c (some n) none t r ≡ some before)
        × (history c (some (suc n)) none t (publish c s (pack c.compress (c.dumps s)) now r)
            ≡ some (before ++ s ∷ []))
  unfolding publish
  history-publish r s n now t h k next lt le =
      let p = pack c.compress (c.dumps s) in
      let after = publish c s p now r in
      let stored : stored_sequence c s ≡ suc r.header.latest = omega (arith, next) in
      let previous : stored_sequence c s - 1 ≡ r.header.latest = omega (arith, stored) in
      let opened = publish-is_open c s p now r h in
      (
        snapshots_to c r.header.latest n r,
        history-open r n t h (omega (arith, lt)) le,
        history-open after (suc n) t opened (omega (arith, lt)) (omega (arith, le, stored))
            ∙ ap some (
                ap (λ found. add_found c found (snapshots_to c (stored_sequence c s - 1) n after))
                  (read-own c r s now k)
                ∙ ap (λ found. found ++ s ∷ [])
                    (ap (λ e. snapshots_to c e n after) previous
                      ∙ snapshots-publish s p now r r.header.latest n (omega (arith, lt)) le
                          (omega (arith, stored)) (omega (arith, stored, lt)))),
      )

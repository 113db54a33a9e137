-- ===== src/Ring/Layout.antt =====
-- Where slots lie in the file.
use native.Mathlib.Nat.{mul-le-mul_left, mul-le-mul_right, div-add-mod, mod-lt}
use kilix_system_monitor.Prelude.{
  ℕ, ◌+◌, ◌-◌, ◌*◌, ◌/◌, ◌%◌, ◌≤◌, ◌<◌, ◌≡◌, ◌≢◌, ◌⊎◌, inl, inr, sym, true, leb, ltb, leb→le,
  leb→gt, Bool-cases, arith,
}
use kilix_system_monitor.Ring.{Ring, is_open, header_size, slot_index, offset}

mod-differ : (c a b : ℕ) → 1 ≤ c → a < b → b < a + c → a % c ≢ b % c
mod-differ c a b pos lt near same =
    let at_a = div-add-mod a c in
    let at_b = div-add-mod b c in
    elim (Bool-cases (leb (b / c) (a / c))) [
      | inl e ↦ omega (arith, at_a, at_b, same, lt, mul-le-mul_left c (leb→le _ _ e))
      | inr e ↦
          let step : a / c + 1 ≤ b / c = omega (arith, leb→gt _ _ e) in
          omega (arith, at_a, at_b, same, near, mul-le-mul_left c step)
    ]

-- Sequence numbers less than `c` apart have slots of their own.
pub slot_index-differ :
    (c e q : ℕ)
    → 1 ≤ c
    → 1 ≤ e
    → 1 ≤ q
    → e ≢ q
    → e < q + c
    → q < e + c
    → slot_index c e ≢ slot_index c q
slot_index-differ c e q pos pe pq differ near near' = elim (Bool-cases (ltb e q)) [
  | inl h ↦ mod-differ c (e - 1) (q - 1) pos (ground arith) (ground arith)
  | inr h ↦
      let after : q < e = ground arith in
      λ same.
        mod-differ c (q - 1) (e - 1) pos (omega (arith, after, pq)) (omega (arith, near, pq))
          (sym same)
]

-- One slot after the other.
slots-apart : (size i j : ℕ) → i < j → i * size + size ≤ j * size
slots-apart size i j h =
    let step : i + 1 ≤ j = omega (arith, h) in omega (arith, mul-le-mul_right size step)

open-count : (r : Ring) → is_open r ≡ true → 1 ≤ r.header.slot_count
open-count r h = ground arith

open-size :
    (r : Ring) → is_open r ≡ true → header_size + r.header.slot_count * r.header.slot_size ≡ r.size
open-size r h = ground arith

-- In an open ring the slots of two sequence numbers fewer than `slot_count` apart lie in the file
-- behind its header, and do not overlap.
pub offset-apart :
    (r : Ring) (e q : ℕ)
    → is_open r ≡ true
    → 1 ≤ e
    → 1 ≤ q
    → e ≢ q
    → e < q + r.header.slot_count
    → q < e + r.header.slot_count
    → (header_size ≤ offset r.header.slot_count r.header.slot_size e)
      × (offset r.header.slot_count r.header.slot_size e + r.header.slot_size ≤ r.size)
      × ((offset r.header.slot_count r.header.slot_size e + r.header.slot_size
            ≤ offset r.header.slot_count r.header.slot_size q)
          ⊎ (offset r.header.slot_count r.header.slot_size q + r.header.slot_size
              ≤ offset r.header.slot_count r.header.slot_size e))
offset-apart r e q h pe pq differ near near' =
    let count = r.header.slot_count in
    let size = r.header.slot_size in
    let i = slot_index count e in
    let j = slot_index count q in
    let some_slot = open-count r h in
    let below : i < count = mod-lt (e - 1) (omega (arith, some_slot)) in
    let unequal = slot_index-differ count e q some_slot pe pq differ near near' in
    (
      omega arith,
      omega (arith, open-size r h, slots-apart size i count below),
      elim (Bool-cases (ltb i j)) [
        | inl less ↦ inl (omega (arith, slots-apart size i j (ground arith)))
        | inr more ↦
            let after : j < i = ground arith in inr (omega (arith, slots-apart size j i after))
      ],
    )

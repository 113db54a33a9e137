-- ===== src/Sizer/Nvidia/Accepted.antt =====
-- The devices that `parse_nvidia` reads are sound observations.
use native.Mathlib.Nat.{mul-le-mul_right, pow-succ', pow-le-pow_right, mul_assoc}
use mathlib.Core.Option as Option
use kilix_system_monitor.Prelude.{
  ℕ, ◌+◌, ◌-◌, ◌*◌, ◌^◌, ◌≤◌, ◌<◌, ◌≡◌, refl, sym, ◌∙◌, ap, Bool, true, false, ◌&&◌, Option, none,
  some, some-injective, List, [], ◌∷◌, leb, all, length, if◌then◌else◌, Bool-cases, Option-cases,
  inl, inr, arith, subst,
}
use kilix_system_monitor.Sizer.Checked.{ok, ◌>>=◌}
use kilix_system_monitor.Sizer.Resources.{Device, mib, check_device, check_devices, is_device}
use kilix_system_monitor.Sizer.Nvidia.{
  Codes, split_lines, int_of, is_number, numbers, device_of, is_refused, row_device, add_device,
  fields, or_none, parse_rows, parse_nvidia,
}

int_of-lt :
    (n : ℕ) (cs : Codes)
    → all (λ c. leb b'0' c && leb c b'9') cs ≡ true
    → int_of n cs < (n + 1) * 10 ^ length cs
int_of-lt n [] h = omega arith
int_of-lt n (c ∷ cs) h =
    let digit : c - b'0' ≤ 9 = ground arith in
    let below = int_of-lt (n * 10 + (c - b'0')) cs (ground arith) in
    let wider : n * 10 + (c - b'0') + 1 ≤ (n + 1) * 10 = omega (arith, digit) in
    omega (
      arith,
      below,
      mul-le-mul_right (10 ^ length cs) wider,
      ap (λ k. (n + 1) * k) (pow-succ' 10 (length cs)),
      mul_assoc (n + 1) 10 (10 ^ length cs),
    )

-- What twelve digits bound.
number-lt : (cs : Codes) → is_number cs ≡ true → int_of 0 cs < 10 ^ 12
number-lt cs h =
    let short : length cs ≤ 12 = ground arith in
    let below = int_of-lt 0 cs (ground arith) in
    let most = pow-le-pow_right {n = 10} (omega arith) short in omega (arith, below, most)

three-lt :
    (a b c : Bool) (x y z : ℕ)
    → (b ≡ true → y < 10 ^ 12)
    → (index total free : ℕ)
    → (if◌then◌else◌ {A = Option (ℕ × ℕ × ℕ)} (a && b && c) (some (x, y, z)) none)
      ≡ some (index, total, free)
    → total < 10 ^ 12
three-lt true true true x y z bound index total free h =
    let below = bound refl in
    let same = ap (λ n. n.1) (some-injective _ _ h) in omega (arith, same, below)
three-lt true true false x y z bound index total free h = cc
three-lt true false c x y z bound index total free h = cc
three-lt false b c x y z bound index total free h = cc

numbers-lt :
    (row : List Codes) (index total free : ℕ)
    → numbers row ≡ some (index, total, free)
    → total < 10 ^ 12
numbers-lt (i ∷ t ∷ f ∷ []) index total free h =
    three-lt (is_number i) (is_number t) (is_number f) (int_of 0 i) (int_of 0 t) (int_of 0 f)
      (number-lt t) index total free h
numbers-lt [] index total free h = cc
numbers-lt (i ∷ []) index total free h = cc
numbers-lt (i ∷ t ∷ []) index total free h = cc
numbers-lt (i ∷ t ∷ f ∷ x ∷ row) index total free h = cc

-- An accepted row passes the check of `validate`.
device_of-check :
    (seen : List ℕ) (i t f : ℕ)
    → t < 10 ^ 12
    → is_refused seen i t f ≡ false
    → check_device (device_of i t f) seen ≡ ok i
device_of-check seen i t f below h =
    let within : f ≤ t = ground arith in
    let some_memory : 1 ≤ t = ground arith in
    let memory_within : f * mib ≤ t * mib = omega (arith, within) in
    let memory_bound : t * mib ≤ 2 ^ 63 = omega (arith, below) in
    let memory : 1 ≤ t * mib = omega (arith, some_memory) in
    let checked : is_device i (t * mib) (f * mib) seen "cuda" ≡ true = ground arith in
    rw checked refl

accepted-eq_some :
    (seen : List ℕ) (i t f : ℕ)
    → is_refused seen i t f ≡ false
    → some (i, device_of i t f) ≡ row_device seen (some (i, t, f))
accepted-eq_some seen i t f h = rw h refl

row-check_device :
    (seen : List ℕ) (read : Option (ℕ × ℕ × ℕ)) (index : ℕ) (d : Device)
    → ((i t f : ℕ) → read ≡ some (i, t, f) → t < 10 ^ 12)
    → row_device seen read ≡ some (index, d)
    → check_device d seen ≡ ok index
row-check_device seen none index d bound h = cc
row-check_device seen (some (i, t, f)) index d bound h = elim (Bool-cases (is_refused seen i t f)) [
  | inl e ↦ absurd (ground arith)
  | inr e ↦
      let made = some-injective _ _ (accepted-eq_some seen i t f e ∙ h) in
      subst (λ p. check_device p.1 seen ≡ ok p.0) made
        (device_of-check seen i t f (bound i t f refl) e)
]

no_devices : check_devices [] [] ≡ ok tt
unfolding check_devices
no_devices = refl

parse_rows-check :
    (rows : List Codes) (seen : List ℕ) (ds : List Device)
    → parse_rows rows seen ≡ some ds
    → check_devices ds seen ≡ ok tt
unfolding parse_rows check_devices
parse_rows-check [] seen ds h =
    subst (λ ds. check_devices ds seen ≡ ok tt) (some-injective _ _ h) refl
parse_rows-check (row ∷ rows) seen ds h =
    elim (Option-cases (row_device seen (numbers (fields row)))) [
      | inl e ↦
          let refused =
            ap (λ r. add_device r (λ index. parse_rows rows (index ∷ seen))) (sym e) ∙ h in
          cc
      | inr (read, e) ↦ elim (Option-cases (parse_rows rows (read.0 ∷ seen))) [
        | inl e2 ↦
            let refused =
              ap (λ o. Option.map (λ devices. read.1 ∷ devices) o) (sym e2)
              ∙ (ap (λ r. add_device r (λ index. parse_rows rows (index ∷ seen))) (sym e) ∙ h) in
            cc
        | inr (rest, e2) ↦
            let made =
              ap (λ o. Option.map (λ devices. read.1 ∷ devices) o) (sym e2)
              ∙ (ap (λ r. add_device r (λ index. parse_rows rows (index ∷ seen))) (sym e) ∙ h) in
            let accepted =
              row-check_device seen (numbers (fields row)) read.0 read.1 (numbers-lt (fields row))
                e in
            subst (λ ds. check_devices ds seen ≡ ok tt) (some-injective _ _ made)
              (ap (λ m. m >>= λ i. check_devices rest (i ∷ seen)) accepted
                ∙ parse_rows-check rows (read.0 ∷ seen) rest e2)
      ]
    ]

-- What `parse_nvidia` makes of any text passes the check of GPU observations in `validate`.
pub parse_nvidia-check_devices : (text : Codes) → check_devices (parse_nvidia text) [] ≡ ok tt
unfolding parse_nvidia
parse_nvidia-check_devices text = elim (Option-cases (parse_rows (split_lines text) [])) [
  | inl e ↦ ap (λ o. check_devices (or_none o) []) e ∙ no_devices
  | inr (ds, e) ↦
      ap (λ o. check_devices (or_none o) []) e ∙ parse_rows-check (split_lines text) [] ds e
]

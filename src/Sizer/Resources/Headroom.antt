-- ===== src/Sizer/Resources/Headroom.antt =====
-- What a budget promises of the snapshot that it was made from.
use kilix_system_monitor.Prelude.{
  ℕ, ◌-◌, ◌≤◌, ◌≡◌, refl, sym, ◌∙◌, Bool, true, false, Option, none, some, arith, str_eq,
  if◌then◌else◌,
}
use kilix_system_monitor.Sizer.Checked.{Value, absent, number, other, ok}
use kilix_system_monitor.Sizer.Resources.{
  Snapshot, Backend, Budget, Reserves, within_total, amount_of, left_over, is_fresh, validate,
  budgets,
}

-- `n` is what `reserve` leaves of `available`, which the snapshot knows.
abbrev pub LeavesOf : Value → ℕ → ℕ → Type 0
LeavesOf available reserve n = (a : ℕ) × (available ≡ number a) × (n ≡ a - reserve)

left_over-LeavesOf :
    (v : Value) (fresh : Bool) (reserve n : ℕ)
    → left_over fresh (amount_of v) reserve ≡ some n
    → (fresh ≡ true) × LeavesOf v reserve n
left_over-LeavesOf absent true reserve n h = cc
left_over-LeavesOf absent false reserve n h = cc
left_over-LeavesOf other true reserve n h = cc
left_over-LeavesOf other false reserve n h = cc
left_over-LeavesOf (number a) false reserve n h = cc
left_over-LeavesOf (number a) true reserve n h = (refl, (a, refl, ground arith))

-- The parts of an accepted snapshot that the budgets rest on.
validate-within :
    (s : Snapshot)
    → validate s ≡ ok tt
    → within_total s.ram_available_bytes s.ram_total_bytes ≡ true
unfolding validate
validate-within s h = ground arith

within_total-le :
    (v t : Value) (a : ℕ)
    → v ≡ number a
    → within_total v t ≡ true
    → (n : ℕ) × (t ≡ number n) × (a ≤ n)
within_total-le v absent a e h = absurd (ground arith)
within_total-le v other a e h = absurd (ground arith)
within_total-le v (number n) a e h = (n, refl, ground arith)

-- A budget is of an accepted snapshot.
budgets-validate :
    (s : Snapshot) (backend : Backend) (gpu : Option ℕ) (now : ℕ) (r : Reserves) (b : Budget)
    → budgets s backend gpu now r ≡ ok b
    → (validate s ≡ ok tt)
      × (b.fresh ≡ is_fresh s.observed_at now)
      × (b.ram_bytes
          ≡ left_over
              (is_fresh s.observed_at now)
              (if str_eq s.cgroup_status "unknown" then none else amount_of s.ram_available_bytes)
              r.ram)
      × (b.disk_bytes
          ≡ left_over (is_fresh s.observed_at now) (amount_of s.disk_available_bytes) r.disk)
unfolding budgets
budgets-validate s backend gpu now r b h = ground arith

known_ram :
    (b fresh : Bool) (v : Value) (reserve n : ℕ)
    → left_over fresh (if b then none else amount_of v) reserve ≡ some n
    → (b ≡ false) × (fresh ≡ true) × LeavesOf v reserve n
known_ram true true v reserve n h = cc
known_ram true false v reserve n h = cc
known_ram false fresh v reserve n h =
    let (f, l) = left_over-LeavesOf v fresh reserve n h in (refl, f, l)

-- A budget that names RAM was made from an observation at most 300 seconds old, of a known cgroup
-- status; it leaves exactly the reserve out of the RAM available there, and stays within the total.
pub budgets-ram :
    (s : Snapshot) (backend : Backend) (gpu : Option ℕ) (now : ℕ) (r : Reserves) (b : Budget)
    (n : ℕ)
    → budgets s backend gpu now r ≡ ok b
    → b.ram_bytes ≡ some n
    → (is_fresh s.observed_at now ≡ true)
      × (str_eq s.cgroup_status "unknown" ≡ false)
      × LeavesOf s.ram_available_bytes r.ram n
      × ((t : ℕ) × (s.ram_total_bytes ≡ number t) × (n ≤ t))
budgets-ram s backend gpu now r b n h e =
    let (v, _, ram, _) = budgets-validate s backend gpu now r b h in
    let (c, f, l) = known_ram _ _ s.ram_available_bytes r.ram n (sym ram ∙ e) in
    let (a, at, left) = l in
    let (t, total, le) =
      within_total-le s.ram_available_bytes s.ram_total_bytes a at (validate-within s v) in
    (f, c, l, (t, total, omega (arith, le, left)))

-- A stale observation leaves no budget of any kind.
pub budgets-stale :
    (s : Snapshot) (backend : Backend) (gpu : Option ℕ) (now : ℕ) (r : Reserves) (b : Budget)
    → budgets s backend gpu now r ≡ ok b
    → is_fresh s.observed_at now ≡ false
    → (b.ram_bytes ≡ none) × (b.vram_bytes ≡ none) × (b.disk_bytes ≡ none) × (b.fresh ≡ false)
unfolding budgets
budgets-stale s backend gpu now r b h stale = ground arith

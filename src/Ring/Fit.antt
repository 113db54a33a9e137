-- ===== src/Ring/Fit.antt =====
-- The binary search of `_fit_processes`: how many processes of the prioritized table a slot holds.
use kilix_system_monitor.Prelude.{
  ℕ, zero, suc, ◌+◌, ◌-◌, ◌/◌, ◌≤◌, ◌<◌, ◌≡◌, refl, sym, ◌∙◌, ap, Bool, true, false, Option, none,
  some, leb, length, if◌then◌else◌, ◌⊎◌, inl, inr, Bool-cases, arith, ltb,
}
use kilix_system_monitor.Ring.Exchange.{Packed}

-- `candidate count` packs the snapshot with the first `count` processes.
abbrev pub fits : (ℕ → Packed) → ℕ → ℕ → Bool
fits candidate capacity count = leb (length (candidate count).payload) capacity

-- The loop, with `stop` one more than `high`, which starts at the number of processes; fuel bounds
-- the rounds.
unfoldable pub search_fit : (ℕ → Packed) → ℕ → ℕ → ℕ → ℕ → Option ℕ → Option ℕ
search_fit candidate capacity zero low stop best = best
search_fit candidate capacity (suc fuel) low stop best =
    let count = (low + (stop - 1)) / 2 in
    let fit = fits candidate capacity count in
    let rest =
      search_fit candidate capacity fuel (if fit then count + 1 else low)
        (if fit then stop else count) (if fit then some count else best) in
    if ltb low stop then rest else best

-- `_fit_processes`: the number of processes that are kept.
unfoldable pub fit_processes : (ℕ → Packed) → ℕ → ℕ → Option ℕ
fit_processes candidate capacity total =
    search_fit candidate capacity (total + 1) 0 (total + 1) none

-- The end of the search: the number kept fits, and one more is too many or not there; none where
-- not even the snapshot without processes fits.
abbrev pub IsBoundary : (ℕ → Packed) → ℕ → ℕ → Option ℕ → Type 0
IsBoundary candidate capacity total none = fits candidate capacity 0 ≡ false
IsBoundary candidate capacity total (some k) =
    (k ≤ total)
    × (fits candidate capacity k ≡ true)
    × ((k ≡ total) ⊎ (fits candidate capacity (suc k) ≡ false))

-- What is known of everything below `low`.
abbrev KnownBelow : (ℕ → Packed) → ℕ → ℕ → Option ℕ → Type 0
KnownBelow candidate capacity low none = low ≡ 0
KnownBelow candidate capacity low (some k) = (low ≡ suc k) × (fits candidate capacity k ≡ true)

-- What is known of `stop`.
abbrev KnownStop : (ℕ → Packed) → ℕ → ℕ → ℕ → Type 0
KnownStop candidate capacity total stop =
    (stop ≡ total + 1) ⊎ ((fits candidate capacity stop ≡ false) × (stop ≤ total))

search-done :
    (candidate : ℕ → Packed) (capacity total low stop : ℕ) (best : Option ℕ)
    → stop ≡ low
    → KnownBelow candidate capacity low best
    → KnownStop candidate capacity total stop
    → IsBoundary candidate capacity total best
search-done candidate capacity total low stop none e below (inl top) =
    absurd (omega (arith, e, below, top))
search-done candidate capacity total low stop none e below (inr (over, le)) =
    ap (fits candidate capacity) (sym (e ∙ below)) ∙ over
search-done candidate capacity total low stop (some k) e below (inl top) =
    (omega (arith, e, below.0, top), below.1, inl (omega (arith, e, below.0, top)))
search-done candidate capacity total low stop (some k) e below (inr (over, le)) = (
  omega (arith, e, below.0, le),
  below.1,
  inr (ap (fits candidate capacity) (sym (e ∙ below.0)) ∙ over),
)

stop-le :
    (candidate : ℕ → Packed) (capacity total stop : ℕ)
    → KnownStop candidate capacity total stop
    → stop ≤ total + 1
stop-le candidate capacity total stop (inl e) = omega (arith, e)
stop-le candidate capacity total stop (inr (over, le)) = omega (arith, le)

search-IsBoundary :
    (candidate : ℕ → Packed) (capacity total fuel low stop : ℕ) (best : Option ℕ)
    → low ≤ stop
    → stop ≤ low + fuel
    → KnownBelow candidate capacity low best
    → KnownStop candidate capacity total stop
    → IsBoundary candidate capacity total (search_fit candidate capacity fuel low stop best)
unfolding search_fit
search-IsBoundary candidate capacity total zero low stop best le enough below top =
    search-done candidate capacity total low stop best (omega (arith, le, enough)) below top
search-IsBoundary candidate capacity total (suc fuel) low stop best le enough below top =
    elim (Bool-cases (ltb low stop)) [
      | inr e ↦ rw e (search-done candidate capacity total low stop best (ground arith) below top)
      | inl e ↦
          let less : low < stop = ground arith in
          let count = (low + (stop - 1)) / 2 in
          elim (Bool-cases (fits candidate capacity count)) [
            | inl f ↦ rw e (
                rw f (
                  search-IsBoundary candidate capacity total fuel (count + 1) stop (some count)
                    (omega (arith, less)) (omega (arith, less, enough)) (omega arith, f) top))
            | inr f ↦ rw e (
                rw f (
                  search-IsBoundary candidate capacity total fuel low count best
                    (omega (arith, less)) (omega (arith, less, enough)) below
                    (inr (f, omega (arith, less, stop-le candidate capacity total stop top)))))
          ]
    ]

-- The binary search of `_fit_processes` ends within one round per process and one more, with a
-- count that fits the capacity such that one process more does not, or that keeps them all; it
-- finds none only where the snapshot without processes does not fit.
pub fit_processes-IsBoundary :
    (candidate : ℕ → Packed) (capacity total : ℕ)
    → IsBoundary candidate capacity total (fit_processes candidate capacity total)
unfolding fit_processes
fit_processes-IsBoundary candidate capacity total =
    search-IsBoundary candidate capacity total (total + 1) 0 (total + 1) none (omega arith)
      (omega arith) refl (inl refl)

-- ===== src/Sizer/Recommend/Verdicts.antt =====
-- What the verdict of an assessment says of the requirements.
use kilix_system_monitor.Prelude.{
  ℕ, ◌≤◌, ◌≡◌, refl, ◌↔◌, Bool, true, false, Option, none, some, some-injective, List, [], ◌∷◌, map,
  arith, All,
}
use kilix_system_monitor.Sizer.Resources.{Budget}
use kilix_system_monitor.Sizer.Recommend.{
  Resource, Status, estimated_fit, does_not_fit, unknown, budget_of, status_of, worst, Requirements,
  assess, statuses_of, sum, highest, combine,
}

-- A known budget that covers what is required.
abbrev pub Covers : Option ℕ → ℕ → Type 0
Covers available required = (n : ℕ) × (available ≡ some n) × (required ≤ n)

abbrev pub Fits : Budget → Resource × ℕ → Type 0
Fits b r = Covers (budget_of b r.0) r.1

pub worst-All : (ss : List Status) → (worst ss ≡ estimated_fit) ↔ All (λ s. s ≡ estimated_fit) ss
worst-All [] = ((λ h. tt), (λ h. refl))
worst-All (estimated_fit ∷ ss) =
    let (to, from) = worst-All ss in
    ((λ h. (refl, to (ground arith))), (λ h. ground (arith, from h.1)))
worst-All (does_not_fit ∷ ss) = ((λ h. cc), (λ h. absurd (ground (arith, h.0))))
worst-All (unknown ∷ ss) = ((λ h. absurd (ground arith)), (λ h. absurd (ground (arith, h.0))))

status_of-Covers :
    (required : ℕ) (available : Option ℕ)
    → (status_of required available ≡ estimated_fit) ↔ Covers available required
status_of-Covers required none = ((λ h. cc), (λ h. let (n, e, _) = h in cc))
status_of-Covers required (some a) = (
  (λ h. (a, refl, ground arith)),
  (λ h. let (n, e, le) = h in let same = some-injective _ _ e in ground arith),
)

statuses-All :
    (rs : Requirements) (b : Budget)
    → All (λ s. s ≡ estimated_fit) (map (λ r. r.1) (statuses_of rs b)) ↔ All (Fits b) rs
statuses-All [] b = ((λ h. h), (λ h. h))
statuses-All (r ∷ rs) b =
    let (to, from) = status_of-Covers r.1 (budget_of b r.0) in
    let (rest_to, rest_from) = statuses-All rs b in
    ((λ h. (to h.0, rest_to h.1)), (λ h. (from h.0, rest_from h.1)))

-- `assess` answers that the requirements fit exactly where the budget of every resource asked for
-- is known and covers what is required of it.
pub assess-Fits :
    (rs : Requirements) (b : Budget) → ((assess rs b).verdict ≡ estimated_fit) ↔ All (Fits b) rs
unfolding assess
assess-Fits rs b =
    let (to, from) = worst-All (map (λ r. r.1) (statuses_of rs b)) in
    let (all_to, all_from) = statuses-All rs b in ((λ h. all_to (to h)), (λ h. from (all_from h)))

highest_bound : (ns : List ℕ) (k : ℕ) → highest ns ≤ k → All (λ n. n ≤ k) ns
highest_bound [] k h = tt
highest_bound (n ∷ ns) k h = (omega (arith, h), highest_bound ns k (omega (arith, h)))

sum_bounds : (ns : List ℕ) (k : ℕ) → sum ns ≤ k → All (λ n. n ≤ k) ns
sum_bounds [] k h = tt
sum_bounds (n ∷ ns) k h = (omega (arith, h), sum_bounds ns k (omega (arith, h)))

-- A combination that fits fits each of its parts.
pub combine_bound :
    (resident : Bool) (ns : List ℕ) (k : ℕ) → combine resident ns ≤ k → All (λ n. n ≤ k) ns
combine_bound true ns k h = sum_bounds ns k h
combine_bound false ns k h = highest_bound ns k h

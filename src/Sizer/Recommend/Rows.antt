-- ===== src/Sizer/Recommend/Rows.antt =====
-- What the verdict on a candidate says of its profiles.
use kilix_system_monitor.Prelude.{
  ℕ, ◌≤◌, ◌≡◌, refl, Bool, true, false, Option, some, List, [], ◌∷◌, map, arith, not, ◌&&◌, All,
  All-both, All-imp, All-places, inl, inr, ◌⊎◌, if◌then◌else◌,
}
use kilix_system_monitor.Sizer.Checked.{Error}
use kilix_system_monitor.Sizer.Resources.{Budget}
use kilix_system_monitor.Sizer.Geometry.{Task, Phase, Workload}
use kilix_system_monitor.Sizer.Estimate.{Estimate, is_cuda, is_train}
use kilix_system_monitor.Sizer.Catalog.{Candidate}
use kilix_system_monitor.Sizer.Recommend.{
  row_of, estimated_fit, in_phase, disk_required, combine, requirements_of, assess, Assessment,
  vram, profiles_of, checks_of, row_verdict,
}
use kilix_system_monitor.Sizer.Recommend.Verdicts.{
  Covers, Fits, assess-Fits, worst-All, combine_bound,
}

-- In the phase of a plan every profile fits the plan's budgets by itself.
abbrev pub ProfileFits : Phase × Budget → Estimate → Type 0
ProfileFits (phase, b) p =
    Covers b.ram_bytes p.ram_peak_bytes
    × ((is_cuda b.backend ≡ false) ⊎ Covers b.vram_bytes p.vram_peak_bytes)

abbrev pub PlanFits : Workload → List Task → List Estimate → Phase × Budget → Type 0
PlanFits w tasks profiles (phase, b) =
    All (ProfileFits (phase, b)) (in_phase phase profiles)
    × Covers b.disk_bytes (disk_required w tasks profiles)

parts-Covers :
    (f : Estimate → ℕ) (n : ℕ) (available : Option ℕ)
    → available ≡ some n
    → (ps : List Estimate) → All (λ k. k ≤ n) (map f ps)
    → All (λ p. Covers available (f p)) ps
parts-Covers f n available e [] h = tt
parts-Covers f n available e (p ∷ ps) h = ((n, e, h.0), parts-Covers f n available e ps h.1)

-- A combination that is covered covers each of its parts.
combine-Covers :
    (f : Estimate → ℕ) (resident : Bool) (ps : List Estimate) (available : Option ℕ)
    → Covers available (combine resident (map f ps))
    → All (λ p. Covers available (f p)) ps
combine-Covers f resident ps available h =
    let (n, e, le) = h in parts-Covers f n available e ps (combine_bound resident (map f ps) n le)

-- The video memory is required where the backend is CUDA.
cuda-Covers :
    (b : Budget) (on : Bool) (resident : Bool) (ps : List Estimate)
    → All
        (Fits b)
        (if on then (vram, combine resident (map (λ p. p.vram_peak_bytes) ps)) ∷ [] else [])
    → All (λ p. (on ≡ false) ⊎ Covers b.vram_bytes p.vram_peak_bytes) ps
cuda-Covers b true resident ps h =
    All-imp _ _ ps (λ p covered. inr covered)
      (combine-Covers (λ p. p.vram_peak_bytes) resident ps b.vram_bytes h.0)
cuda-Covers b false resident ps h = All-imp _ _ ps (λ p place. inl refl) (All-places ps)

plan-Fits :
    (w : Workload) (tasks : List Task) (profiles : List Estimate) (phase : Phase) (b : Budget)
    → (assess (requirements_of w tasks profiles phase b) b).verdict ≡ estimated_fit
    → PlanFits w tasks profiles (phase, b)
plan-Fits w tasks profiles phase b h =
    let (ram_fits, others) = (assess-Fits (requirements_of w tasks profiles phase b) b).0 h in
    let (disk_fits, vram_fits) = others in
    let selected = in_phase phase profiles in
    let resident = not (is_train phase) && w.co_resident in
    (
      All-both _ _ selected
          (combine-Covers (λ p. p.ram_peak_bytes) resident selected b.ram_bytes ram_fits)
          (cuda-Covers b (is_cuda b.backend) resident selected vram_fits),
      disk_fits,
    )

checks-Fits :
    (w : Workload) (tasks : List Task) (profiles : List Estimate) (plans : List (Phase × Budget))
    → All
        (λ s. s ≡ estimated_fit)
        (map (λ c. Assessment.verdict c.1) (checks_of w tasks plans (profiles, [])))
    → All (PlanFits w tasks profiles) plans
checks-Fits w tasks profiles [] h = tt
checks-Fits w tasks profiles ((phase, b) ∷ plans) h =
    (plan-Fits w tasks profiles phase b h.0, checks-Fits w tasks profiles plans h.1)

verdict-Fits :
    (w : Workload) (tasks : List Task) (plans : List (Phase × Budget)) (ps : List Estimate)
    (es : List Error)
    → row_verdict es (checks_of w tasks plans (ps, es)) ≡ estimated_fit
    → (es ≡ []) × All (PlanFits w tasks ps) plans
verdict-Fits w tasks plans ps [] h = (refl, checks-Fits w tasks ps plans ((worst-All _).0 h))
verdict-Fits w tasks plans ps (e ∷ es) h = absurd (ground arith)

-- Every requirement of each phase is covered by the budgets of its plan.
abbrev pub Required : Workload → List Task → List Estimate → Phase × Budget → Type 0
Required w tasks profiles (phase, b) = All (Fits b) (requirements_of w tasks profiles phase b)

checks-Required :
    (w : Workload) (tasks : List Task) (profiles : List Estimate) (plans : List (Phase × Budget))
    → All (Required w tasks profiles) plans
    → All
        (λ s. s ≡ estimated_fit)
        (map (λ c. Assessment.verdict c.1) (checks_of w tasks plans (profiles, [])))
checks-Required w tasks profiles [] h = tt
checks-Required w tasks profiles ((phase, b) ∷ plans) h = (
  (assess-Fits (requirements_of w tasks profiles phase b) b).1 h.0,
  checks-Required w tasks profiles plans h.1,
)

verdict-Required :
    (w : Workload) (tasks : List Task) (plans : List (Phase × Budget)) (ps : List Estimate)
    (es : List Error)
    → es ≡ []
    → All (Required w tasks ps) plans
    → row_verdict es (checks_of w tasks plans (ps, es)) ≡ estimated_fit
verdict-Required w tasks plans ps [] e h = (worst-All _).1 (checks-Required w tasks ps plans h)
verdict-Required w tasks plans ps (x ∷ es) e h = cc

-- A row fits where no estimate failed and the requirements of every phase are covered.
pub row-Required :
    (w : Workload) (tasks : List Task) (plans : List (Phase × Budget)) (c : Candidate)
    → (profiles_of c w tasks plans).1 ≡ []
    → All (Required w tasks (profiles_of c w tasks plans).0) plans
    → (row_of w tasks plans c).verdict ≡ estimated_fit
unfolding row_of
row-Required w tasks plans c e h =
    verdict-Required w tasks plans (profiles_of c w tasks plans).0 (profiles_of c w tasks plans).1 e
      h

-- The verdict of a row: it fits where no estimate failed and every phase fits.
pub row-Fits :
    (w : Workload) (tasks : List Task) (plans : List (Phase × Budget)) (c : Candidate)
    → (row_of w tasks plans c).verdict ≡ estimated_fit
    → ((row_of w tasks plans c).errors ≡ [])
      × All (PlanFits w tasks (row_of w tasks plans c).profiles) plans
unfolding row_of
row-Fits w tasks plans c h =
    verdict-Fits w tasks plans (profiles_of c w tasks plans).0 (profiles_of c w tasks plans).1 h

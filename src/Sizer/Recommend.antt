-- ===== src/Sizer/Recommend.antt =====
-- `assess` and `recommend` of estimate.py: the verdicts on a catalog, and the shortlist.
pub mod Verdicts
pub mod Rows
pub mod Shortlist
pub mod Least
pub mod Stale
use kilix_system_monitor.Prelude.{
  ℕ, ◌+◌, ◌*◌, String, Bool, true, false, not, ◌&&◌, ◌||◌, Option, none, some, List, [], ◌∷◌, ◌++◌,
  map, max, leb, ltb, ◌==◌, str_eq, any, all, keep, if◌then◌else◌,
}
use kilix_system_monitor.Sizer.Checked.{Error, Checked, ok, err, ◌>>=◌, ◌>>◌}
use kilix_system_monitor.Sizer.Resources.{
  Snapshot, Backend, Budget, Reserves, default_reserves, validate, budgets,
}
use kilix_system_monitor.Sizer.Geometry.{
  Task, answer, rank, both_tasks, Phase, train, infer, both_phases, Workload, Checkpoint, codes,
}
use kilix_system_monitor.Sizer.Estimate.{Estimate, estimate, is_cuda, is_train, is_answer}
use kilix_system_monitor.Sizer.Catalog.{Candidate, Catalog, validate_catalog}

pub data Resource : Type 0 where
  ram disk vram : Resource

pub data Status : Type 0 where
  estimated_fit does_not_fit unknown : Status

abbrev is_no : Status → Bool
is_no does_not_fit = true
is_no estimated_fit = false
is_no unknown = false

abbrev is_unknown : Status → Bool
is_unknown unknown = true
is_unknown estimated_fit = false
is_unknown does_not_fit = false

abbrev pub is_fit : Status → Bool
is_fit estimated_fit = true
is_fit unknown = false
is_fit does_not_fit = false

abbrev pub budget_of : Budget → Resource → Option ℕ
budget_of b ram = b.ram_bytes
budget_of b disk = b.disk_bytes
budget_of b vram = b.vram_bytes

abbrev pub status_of : ℕ → Option ℕ → Status
status_of required none = unknown
status_of required (some available) = if leb required available then estimated_fit else does_not_fit

-- The worst of the statuses: a misfit before an unknown.
abbrev pub worst : List Status → Status
worst statuses =
    if any is_no statuses
    then does_not_fit
    else if any is_unknown statuses
    then unknown
    else estimated_fit

abbrev pub Requirements : Type 0
Requirements = List (Resource × ℕ)

pub record Assessment : Type 0 where
  pub verdict : Status
  pub resources : List (Resource × Status)

abbrev pub statuses_of : Requirements → Budget → List (Resource × Status)
statuses_of requirements b = map (λ r. (r.0, status_of r.1 (budget_of b r.0))) requirements

-- `assess`
unfoldable pub assess : Requirements → Budget → Assessment
assess requirements b =
    let resources = statuses_of requirements b in
    record { verdict = worst (map (λ r. r.1) resources); resources = resources }

abbrev pub sum : List ℕ → ℕ
sum [] = 0
sum (n ∷ ns) = n + sum ns

-- `max` of a list that is not empty.
abbrev pub highest : List ℕ → ℕ
highest [] = 0
highest (n ∷ ns) = max n (highest ns)

abbrev pub combine : Bool → List ℕ → ℕ
combine true ns = sum ns
combine false ns = highest ns

abbrev pub tasks_of : Task → List Task
tasks_of both_tasks = answer ∷ rank ∷ []
tasks_of answer = answer ∷ []
tasks_of rank = rank ∷ []

abbrev pub phases_of : Phase → List Phase
phases_of both_phases = train ∷ infer ∷ []
phases_of train = train ∷ []
phases_of infer = infer ∷ []

abbrev pub same_task : Task → Task → Bool
same_task answer answer = true
same_task rank rank = true
same_task both_tasks both_tasks = true
same_task t u = false

abbrev pub same_phase : Phase → Phase → Bool
same_phase train train = true
same_phase infer infer = true
same_phase both_phases both_phases = true
same_phase p q = false

abbrev pub backend_for : Workload → Phase → Backend
backend_for w phase = if is_train phase then w.train_backend else w.infer_backend

-- `phase_budgets`
abbrev pub phase_budgets : Snapshot → Workload → ℕ → List Phase → Checked (List (Phase × Budget))
phase_budgets s w now [] = ok []
phase_budgets s w now (phase ∷ phases) = do
  b ← budgets s (backend_for w phase) w.gpu now default_reserves
  rest ← phase_budgets s w now phases
  ok ((phase, b) ∷ rest)

abbrev checkpoint_for : Candidate → Task → Checkpoint
checkpoint_for c task = if is_answer task then c.generation_checkpoint else c.decision_checkpoint

-- The profiles of a candidate, and the errors.
abbrev pub Profiles : Type 0
Profiles = List Estimate × List Error

abbrev add_profile : Checked Estimate → Profiles → Profiles
add_profile (ok p) (profiles, errors) = (p ∷ profiles, errors)
add_profile (err e) (profiles, errors) = (profiles, e ∷ errors)

abbrev task_profiles : Candidate → Workload → Task → List (Phase × Budget) → Profiles → Profiles
task_profiles c w task [] rest = rest
task_profiles c w task ((phase, b) ∷ plans) rest =
    add_profile (estimate (checkpoint_for c task) task phase b.backend w)
      (task_profiles c w task plans rest)

-- One estimate for each task and phase.
abbrev pub profiles_of : Candidate → Workload → List Task → List (Phase × Budget) → Profiles
profiles_of c w [] plans = ([], [])
profiles_of c w (task ∷ tasks) plans = task_profiles c w task plans (profiles_of c w tasks plans)

-- Disk is counted once per task.
abbrev pub disk_required : Workload → List Task → List Estimate → ℕ
disk_required w tasks profiles =
    sum (
      map
        (λ task.
          highest (map (λ p. p.disk_bytes) (keep (λ p. same_task (Estimate.task p) task) profiles)))
        tasks)
    + 4 * w.document_bytes

abbrev pub in_phase : Phase → List Estimate → List Estimate
in_phase phase profiles = keep (λ p. same_phase (Estimate.phase p) phase) profiles

-- `requirements` of one phase
abbrev pub requirements_of : Workload → List Task → List Estimate → Phase → Budget → Requirements
requirements_of w tasks profiles phase b =
    let selected = in_phase phase profiles in
    let resident = not (is_train phase) && w.co_resident in
    (ram, combine resident (map (λ p. p.ram_peak_bytes) selected))
    ∷ (disk, disk_required w tasks profiles)
    ∷ (if is_cuda b.backend
        then (vram, combine resident (map (λ p. p.vram_peak_bytes) selected)) ∷ []
        else [])

pub record Row : Type 0 where
  pub id : String
  pub verdict : Status
  pub errors : List Error
  pub profiles : List Estimate
  pub checks : List (Phase × Assessment)

abbrev pub row_verdict : List Error → List (Phase × Assessment) → Status
row_verdict [] checks = worst (map (λ c. Assessment.verdict c.1) checks)
row_verdict (e ∷ errors) checks = unknown

abbrev pub checks_of :
    Workload → List Task → List (Phase × Budget) → Profiles → List (Phase × Assessment)
checks_of w tasks plans (profiles, []) =
    map (λ p. (p.0, assess (requirements_of w tasks profiles p.0 p.1) p.1)) plans
checks_of w tasks plans (profiles, e ∷ errors) = []

-- The row of one candidate.
unfoldable pub row_of : Workload → List Task → List (Phase × Budget) → Candidate → Row
row_of w tasks plans c =
    let found = profiles_of c w tasks plans in
    let checks = checks_of w tasks plans found in
    record {
      id = c.id;
      verdict = row_verdict found.1 checks;
      errors = found.1;
      profiles = found.0;
      checks = checks;
    }

-- The key of the shortlist: the largest parameter count of the profiles, then the identifier.
abbrev pub size_of : Row → ℕ
size_of row = highest (map (λ p. Estimate.parameters p) row.profiles)

abbrev pub precedes : List ℕ → List ℕ → Bool
precedes [] ds = true
precedes (c ∷ cs) [] = false
precedes (c ∷ cs) (d ∷ ds) = ltb c d || (c == d && precedes cs ds)

abbrev pub comes_before : Row → Row → Bool
comes_before r q =
    ltb (size_of r) (size_of q) || (size_of r == size_of q && precedes (codes r.id) (codes q.id))

abbrev pub insert : Row → List Row → List Row
insert r [] = r ∷ []
insert r (q ∷ qs) = if comes_before r q then r ∷ q ∷ qs else q ∷ insert r qs

abbrev pub sort : List Row → List Row
sort [] = []
sort (r ∷ rs) = insert r (sort rs)

pub record Recommendation : Type 0 where
  pub plans : List (Phase × Budget)
  pub candidates : List Row
  pub shortlist : List String
  pub provisional_candidate : Option String

-- The rows whose verdict is `estimated-fit`.
abbrev pub fits_of : List Row → List Row
fits_of rows = keep (λ row. is_fit (Row.verdict row)) rows

abbrev pub fitting_of : List Row → List Row
fitting_of rows = sort (fits_of rows)

abbrev pub first_id : List Row → Option String
first_id [] = none
first_id (r ∷ rs) = some r.id

-- `recommend`, without the constants and the digest of its report.
unfoldable pub recommend : Catalog → Snapshot → Workload → ℕ → Checked Recommendation
recommend catalog s w now = do
  validate_catalog catalog
  validate s
  plans ← phase_budgets s w now (phases_of w.phase)
  let rows = map (row_of w (tasks_of w.task) plans) catalog.candidates
  let fitting = fitting_of rows
  ok (record {
    plans = plans;
    candidates = rows;
    shortlist = map (λ r. Row.id r) fitting;
    provisional_candidate = first_id fitting;
  })

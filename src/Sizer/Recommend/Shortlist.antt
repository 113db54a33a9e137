-- ===== src/Sizer/Recommend/Shortlist.antt =====
-- What the shortlist promises of the candidates in it.
use kilix_system_monitor.Prelude.{
  ℕ, suc, ◌≡◌, refl, sym, ◌∙◌, ap, String, true, some, List, [], ◌∷◌, map, arith, keep, All,
  All-imp, map-get_elem?, get_elem?, Bool-cases, subst, get_elem?-All, inl, inr,
}
use kilix_system_monitor.Sizer.Checked.{Checked, ok, ◌>>=◌, >>=-eq-ok}
use kilix_system_monitor.Sizer.Resources.{Snapshot, Budget, budgets, default_reserves}
use kilix_system_monitor.Sizer.Geometry.{Phase, train, infer, both_phases, Workload}
use kilix_system_monitor.Sizer.Catalog.{Candidate, Catalog}
use kilix_system_monitor.Sizer.Recommend.{
  Row, row_of, Status, estimated_fit, unknown, does_not_fit, is_fit, sort, Recommendation,
  recommend, phase_budgets, phases_of, backend_for, fitting_of, first_id, comes_before, insert,
  tasks_of,
}
use kilix_system_monitor.Sizer.Recommend.Rows.{PlanFits, row-Fits}

pub insert-All {ℓ} :
    (P : Row → Type ℓ) (r : Row) (qs : List Row) → P r → All P qs → All P (insert r qs)
insert-All P r [] h k = (h, tt)
insert-All P r (q ∷ qs) h k = elim (Bool-cases (comes_before r q)) [
  | inl e ↦ rw e (h, k)
  | inr e ↦ rw e (k.0, insert-All P r qs h k.1)
]

sort-All {ℓ} : (P : Row → Type ℓ) (rs : List Row) → All P rs → All P (sort rs)
sort-All P [] h = tt
sort-All P (r ∷ rs) h = insert-All P r (sort rs) h.0 (sort-All P rs h.1)

is_fit-true : (v : Status) → is_fit v ≡ true → v ≡ estimated_fit
is_fit-true estimated_fit h = refl
is_fit-true unknown h = cc
is_fit-true does_not_fit h = cc

-- The row of a candidate at some place of the list.
abbrev pub RowOf : Workload → List (Phase × Budget) → List Candidate → Row → Type 0
RowOf w plans cs r =
    (j : ℕ) × (c : Candidate) × (get_elem? cs j ≡ some c) × (r ≡ row_of w (tasks_of w.task) plans c)

rows-RowOf :
    (w : Workload) (plans : List (Phase × Budget)) (cs : List Candidate)
    → All (RowOf w plans cs) (map (row_of w (tasks_of w.task) plans) cs)
rows-RowOf w plans [] = tt
rows-RowOf w plans (c ∷ cs) = (
  (0, c, refl, refl),
  All-imp _ _ (map (row_of w (tasks_of w.task) plans) cs)
      (λ r h. let (j, d, at, e) = h in (suc j, d, at, e)) (rows-RowOf w plans cs),
)

keep-fit :
    (P : Row → Type 0) (rs : List Row)
    → All P rs
    → All (λ r. P r × (Row.verdict r ≡ estimated_fit)) (keep (λ row. is_fit (Row.verdict row)) rs)
keep-fit P [] h = tt
keep-fit P (r ∷ rs) h = elim (Bool-cases (is_fit r.verdict)) [
  | inl e ↦ rw e ((h.0, is_fit-true r.verdict e), keep-fit P rs h.1)
  | inr e ↦ rw e (keep-fit P rs h.1)
]

-- How the report is made of the rows.
pub recommend-rows :
    (catalog : Catalog) (s : Snapshot) (w : Workload) (now : ℕ) (r : Recommendation)
    → recommend catalog s w now ≡ ok r
    → (r.candidates ≡ map (row_of w (tasks_of w.task) r.plans) catalog.candidates)
      × (r.shortlist ≡ map (λ row. Row.id row) (fitting_of r.candidates))
      × (r.provisional_candidate ≡ first_id (fitting_of r.candidates))
unfolding recommend
recommend-rows catalog s w now r h = ground arith

-- The phases that a workload asks for, in their order.
abbrev pub AreAsked : Phase → List Phase → Type 0
AreAsked train phases = phases ≡ train ∷ []
AreAsked infer phases = phases ≡ infer ∷ []
AreAsked both_phases phases = phases ≡ train ∷ infer ∷ []

-- A phase with the budget that the snapshot leaves for its backend.
abbrev pub IsPlan : Snapshot → Workload → ℕ → Phase × Budget → Type 0
IsPlan s w now (train, b) = budgets s w.train_backend w.gpu now default_reserves ≡ ok b
IsPlan s w now (phase, b) = budgets s w.infer_backend w.gpu now default_reserves ≡ ok b

-- One such plan for each phase asked for.
abbrev pub ArePlans : Snapshot → Workload → ℕ → List (Phase × Budget) → Type 0
ArePlans s w now plans = AreAsked w.phase (map (λ p. p.0) plans) × All (IsPlan s w now) plans

backend_for-IsPlan :
    (s : Snapshot) (w : Workload) (now : ℕ) (phase : Phase) (b : Budget)
    → budgets s (backend_for w phase) w.gpu now default_reserves ≡ ok b
    → IsPlan s w now (phase, b)
backend_for-IsPlan s w now train b h = h
backend_for-IsPlan s w now infer b h = h
backend_for-IsPlan s w now both_phases b h = h

ok-eq : {A : Type 0} (a b : A) → ◌≡◌ {A = Checked A} (ok a) (ok b) → a ≡ b
ok-eq a b h = cc

phase_budgets-IsPlan :
    (s : Snapshot) (w : Workload) (now : ℕ) (phases : List Phase) (plans : List (Phase × Budget))
    → phase_budgets s w now phases ≡ ok plans
    → (map (λ p. p.0) plans ≡ phases) × All (IsPlan s w now) plans
phase_budgets-IsPlan s w now [] plans h =
    subst (λ l. (map (λ p. p.0) l ≡ []) × All (IsPlan s w now) l) (ok-eq [] plans h) (refl, tt)
phase_budgets-IsPlan s w now (phase ∷ phases) plans h =
    let (b, at, h1) =
      >>=-eq-ok (budgets s (backend_for w phase) w.gpu now default_reserves)
        (λ b. phase_budgets s w now phases >>= λ rest. ok ((phase, b) ∷ rest)) plans h in
    let (rest, found, h2) =
      >>=-eq-ok (phase_budgets s w now phases) (λ rest. ok ((phase, b) ∷ rest)) plans h1 in
    let (same, all) = phase_budgets-IsPlan s w now phases rest found in
    subst (λ l. (map (λ p. p.0) l ≡ phase ∷ phases) × All (IsPlan s w now) l)
      (ok-eq ((phase, b) ∷ rest) plans h2)
      (ap (λ l. phase ∷ l) same, (backend_for-IsPlan s w now phase b at, all))

phases_of-AreAsked :
    (phase : Phase) (phases : List Phase) → phases ≡ phases_of phase → AreAsked phase phases
phases_of-AreAsked train phases h = h
phases_of-AreAsked infer phases h = h
phases_of-AreAsked both_phases phases h = h

-- The report plans for the phases asked for.
pub recommend-ArePlans :
    (catalog : Catalog) (s : Snapshot) (w : Workload) (now : ℕ) (r : Recommendation)
    → recommend catalog s w now ≡ ok r
    → ArePlans s w now r.plans
unfolding recommend
recommend-ArePlans catalog s w now r h =
    let plans : phase_budgets s w now (phases_of w.phase) ≡ ok r.plans = ground arith in
    let (same, all) = phase_budgets-IsPlan s w now (phases_of w.phase) r.plans plans in
    (phases_of-AreAsked w.phase (map (λ p. p.0) r.plans) same, all)

-- Each fitting row is a candidate's, and fits.
pub fitting-RowOf :
    (catalog : Catalog) (s : Snapshot) (w : Workload) (now : ℕ) (r : Recommendation)
    → recommend catalog s w now ≡ ok r
    → All
        (λ row. RowOf w r.plans catalog.candidates row × (Row.verdict row ≡ estimated_fit))
        (fitting_of r.candidates)
fitting-RowOf catalog s w now r h =
    let (rows, _, _) = recommend-rows catalog s w now r h in
    sort-All _ _ (
      keep-fit _ r.candidates (
        subst (All (RowOf w r.plans catalog.candidates)) (sym rows)
          (rows-RowOf w r.plans catalog.candidates)))

pub row_id :
    (w : Workload) (plans : List (Phase × Budget)) (c : Candidate)
    → c.id ≡ (row_of w (tasks_of w.task) plans c).id
unfolding row_of
row_id w plans c = refl

-- Every identifier of the shortlist is of a candidate of the catalog whose estimates all succeed
-- and whose profiles fit, in each phase asked for, the budgets that the snapshot leaves in that
-- phase of RAM and, on CUDA, of video memory, with the disk that its checkpoints and the documents
-- need. The plans of the report are those budgets.
pub recommend-Fits :
    (catalog : Catalog) (s : Snapshot) (w : Workload) (now : ℕ) (r : Recommendation) (i : ℕ)
    (id : String)
    → recommend catalog s w now ≡ ok r
    → get_elem? r.shortlist i ≡ some id
    → (j : ℕ) × (c : Candidate) × (get_elem? catalog.candidates j ≡ some c)
      × (c.id ≡ id)
      × ArePlans s w now r.plans
      × ((row_of w (tasks_of w.task) r.plans c).errors ≡ [])
      × All (PlanFits w (tasks_of w.task) (row_of w (tasks_of w.task) r.plans c).profiles) r.plans
recommend-Fits catalog s w now r i id h at =
    let (_, listed, _) = recommend-rows catalog s w now r h in
    let (row, at_row, same_id) =
      map-get_elem? (λ row. Row.id row) (fitting_of r.candidates) i id
        (subst (λ ids. get_elem? ids i ≡ some id) listed at) in
    let (found, fit) =
      get_elem?-All _ (fitting_of r.candidates) i row (fitting-RowOf catalog s w now r h) at_row in
    let (j, c, at_c, same) = found in
    let (no_error, fits) =
      row-Fits w (tasks_of w.task) r.plans c
        (subst (λ row. Row.verdict row ≡ estimated_fit) same fit) in
    (
      j,
      c,
      at_c,
      row_id w r.plans c ∙ (ap (λ row. Row.id row) (sym same) ∙ same_id),
      recommend-ArePlans catalog s w now r h,
      no_error,
      fits,
    )

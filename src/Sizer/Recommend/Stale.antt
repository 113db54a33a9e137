-- ===== src/Sizer/Recommend/Stale.antt =====
-- What is recommended from an old observation.
use kilix_system_monitor.Prelude.{
  ℕ, ◌+◌, ◌*◌, ◌^◌, ◌<◌, ◌≡◌, ◌⊎◌, inl, inr, refl, ◌∙◌, ap, subst, false, Option, none, some, List,
  [], ◌∷◌, map, All, All-imp, arith,
}
use kilix_system_monitor.Sizer.Checked.{ok}
use kilix_system_monitor.Sizer.Resources.{
  Snapshot, Backend, Budget, default_reserves, is_fresh, budgets,
}
use kilix_system_monitor.Sizer.Resources.Headroom.{budgets-stale}
use kilix_system_monitor.Sizer.Geometry.{Phase, train, infer, both_phases, Workload}
use kilix_system_monitor.Sizer.Catalog.{Candidate, Catalog}
use kilix_system_monitor.Sizer.Recommend.{
  Recommendation, recommend, Row, row_of, tasks_of, estimated_fit, fitting_of, first_id,
  disk_required,
}
use kilix_system_monitor.Sizer.Recommend.Verdicts.{Covers}
use kilix_system_monitor.Sizer.Recommend.Rows.{PlanFits, row-Fits}
use kilix_system_monitor.Sizer.Recommend.Shortlist.{
  AreAsked, IsPlan, RowOf, recommend-ArePlans, recommend-rows, fitting-RowOf,
}

-- An observation of the future, or one more than 300 seconds old.
abbrev pub IsOld : ℕ → ℕ → Type 0
IsOld t now = (now < t) ⊎ (t + 300 * 10 ^ 6 < now)

old-stale : (t now : ℕ) → IsOld t now → is_fresh (some t) now ≡ false
old-stale t now (inl h) = ground arith
old-stale t now (inr h) = ground arith

uncovered : (available : Option ℕ) (n : ℕ) → available ≡ none → ¬ (Covers available n)
uncovered none n e (k, h, _) = cc
uncovered (some a) n e h = cc

IsPlan-budgets :
    (s : Snapshot) (w : Workload) (now : ℕ) (phase : Phase) (b : Budget)
    → IsPlan s w now (phase, b)
    → (backend : Backend) × (budgets s backend w.gpu now default_reserves ≡ ok b)
IsPlan-budgets s w now train b h = (w.train_backend, h)
IsPlan-budgets s w now infer b h = (w.infer_backend, h)
IsPlan-budgets s w now both_phases b h = (w.infer_backend, h)

no_phase : (phase : Phase) → ¬ (AreAsked phase [])
no_phase train h = cc
no_phase infer h = cc
no_phase both_phases h = cc

module _ (s : Snapshot) (w : Workload) (now t : ℕ) (at : s.observed_at ≡ some t)
    (old : IsOld t now) where
  -- Nothing fits into the budget of a plan.
  none-fits :
      (plans : List (Phase × Budget)) (phase : Phase) (P : Phase × Budget → ℕ)
      → AreAsked phase (map (λ p. p.0) plans)
      → All (IsPlan s w now) plans
      → ¬ (All (λ p. Covers (Budget.disk_bytes p.1) (P p)) plans)
  none-fits [] phase P asked planned covered = no_phase phase asked
  none-fits ((first, b) ∷ plans) phase P asked planned covered =
      let (backend, made) = IsPlan-budgets s w now first b planned.0 in
      let (_, _, disk, _) =
        budgets-stale s backend w.gpu now default_reserves b made
          (ap (λ o. is_fresh o now) at ∙ old-stale t now old) in
      uncovered b.disk_bytes (P (first, b)) disk covered.0

  no-fitting :
      (plans : List (Phase × Budget)) (cs : List Candidate) (rows : List Row)
      → AreAsked w.phase (map (λ p. p.0) plans)
      → All (IsPlan s w now) plans
      → All (λ row. RowOf w plans cs row × (Row.verdict row ≡ estimated_fit)) rows
      → rows ≡ []
  no-fitting plans cs [] asked planned h = refl
  no-fitting plans cs (row ∷ rows) asked planned h =
      let ((j, c, place, same), fit) = h.0 in
      let made = row_of w (tasks_of w.task) plans c in
      let (_, fits) =
        row-Fits w (tasks_of w.task) plans c
          (subst (λ q. Row.verdict q ≡ estimated_fit) same fit) in
      absurd (
        none-fits plans w.phase (λ p. disk_required w (tasks_of w.task) made.profiles) asked planned
          (All-imp (PlanFits w (tasks_of w.task) made.profiles) _ plans (λ p covered. covered.1)
            fits))

  -- Nothing is recommended from an observation that is too old or of the future: the shortlist is
  -- empty, and there is no provisional candidate.
  pub recommend-IsOld :
      (catalog : Catalog) (r : Recommendation)
      → recommend catalog s w now ≡ ok r
      → (r.shortlist ≡ []) × (r.provisional_candidate ≡ none)
  recommend-IsOld catalog r h =
      let (_, listed, first) = recommend-rows catalog s w now r h in
      let (asked, planned) = recommend-ArePlans catalog s w now r h in
      let empty : fitting_of r.candidates ≡ [] =
        no-fitting r.plans catalog.candidates (fitting_of r.candidates) asked planned
          (fitting-RowOf catalog s w now r h) in
      (listed ∙ ap (λ rows. map (λ row. Row.id row) rows) empty, first ∙ ap first_id empty)

-- ===== src/Sizer/Tests/Plans.antt =====
-- The sizer on the concrete catalog.
use kilix_system_monitor.Prelude.{
  ℕ, leb→le, ◌*◌, ◌^◌, inr, arith, ◌≤◌, ◌≡◌, refl, ap, none, some, [], ◌∷◌, All, get_elem?,
}
use kilix_system_monitor.Sizer.Checked.{Checked, ok, err, integer}
use kilix_system_monitor.Sizer.Resources.{validate, check_devices, budgets, largest}
use kilix_system_monitor.Sizer.Geometry.{geometry, is_hex_digest, parameter_shapes}
use kilix_system_monitor.Sizer.Estimate.{
  estimate, estimate_of, trainable, infer_parts, infer_weights, total, train_parts, with_margin,
}
use kilix_system_monitor.Sizer.Catalog.{
  validate_catalog, check_candidates, check_identity, check_files, Candidate,
}
use kilix_system_monitor.Sizer.Recommend.{
  Profiles, profiles_of, Recommendation, Row, recommend, assess, row_of, tasks_of, fits_of,
  estimated_fit, size_of,
}
use kilix_system_monitor.Sizer.Recommend.Rows.{PlanFits, Required}
use kilix_system_monitor.Sizer.Recommend.Stale.{recommend-IsOld}
use kilix_system_monitor.Sizer.Recommend.Shortlist.{recommend-Fits, RowOf, ArePlans}
use kilix_system_monitor.Sizer.Recommend.Least.{recommend_complete, recommend-provisional}
use kilix_system_monitor.Sizer.Tests.Data.{candidate_of, catalog, snapshot, workload, soon, late}

abbrev made : Checked Recommendation → Recommendation
made (ok r) = r
made (err e) = record { plans = []; candidates = []; shortlist = []; provisional_candidate = none }

abbrev report : Recommendation
report = made (recommend catalog snapshot workload soon)

report_ok : recommend catalog snapshot workload soon ≡ ok report
unfolding recommend validate_catalog check_candidates check_identity is_hex_digest check_files
    integer validate check_devices budgets row_of estimate geometry assess estimate_of largest
    trainable parameter_shapes infer_parts infer_weights total train_parts with_margin
report_ok = refl

report_shortlist : report.shortlist ≡ "tiny" ∷ "small" ∷ []
unfolding recommend validate_catalog check_candidates check_identity is_hex_digest check_files
    integer validate check_devices budgets row_of estimate geometry assess estimate_of largest
    trainable parameter_shapes infer_parts infer_weights total train_parts with_margin
report_shortlist = refl

recommend-Fits_example :
    (j : ℕ) × (c : Candidate) × (get_elem? catalog.candidates j ≡ some c)
    × (c.id ≡ "small")
    × ArePlans snapshot workload soon report.plans
    × ((row_of workload (tasks_of workload.task) report.plans c).errors ≡ [])
    × All
        (PlanFits workload
          (tasks_of workload.task)
          (row_of workload (tasks_of workload.task) report.plans c).profiles)
        report.plans
recommend-Fits_example =
    recommend-Fits catalog snapshot workload soon report 1 "small" report_ok
      (ap (λ ids. get_elem? ids 1) report_shortlist)

abbrev small_candidate : Candidate
small_candidate = candidate_of "small" (2 * 10 ^ 6)

abbrev small_profiles : Profiles
small_profiles = profiles_of small_candidate workload (tasks_of workload.task) report.plans

small_estimates : small_profiles.1 ≡ []
unfolding recommend validate_catalog check_candidates check_identity is_hex_digest check_files
    integer validate check_devices budgets row_of estimate geometry assess estimate_of largest
    trainable parameter_shapes infer_parts infer_weights total train_parts with_margin
small_estimates = refl

small-Required : All (Required workload (tasks_of workload.task) small_profiles.0) report.plans
unfolding recommend validate_catalog check_candidates check_identity is_hex_digest check_files
    integer validate check_devices budgets row_of estimate geometry assess estimate_of largest
    trainable parameter_shapes infer_parts infer_weights total train_parts with_margin
small-Required = (
  (
    (49392123904, refl, leb→le _ _ refl),
    ((213674622976, refl, leb→le _ _ refl), ((15569256448, refl, leb→le _ _ refl), tt)),
  ),
  (
    (
      (49392123904, refl, leb→le _ _ refl),
      ((213674622976, refl, leb→le _ _ refl), ((15569256448, refl, leb→le _ _ refl), tt)),
    ),
    tt,
  ),
)

recommend_complete_example :
    ArePlans snapshot workload soon report.plans
    × ((i : ℕ) × (get_elem? report.shortlist i ≡ some "small"))
recommend_complete_example =
    recommend_complete catalog snapshot workload soon report 1 small_candidate report_ok refl
      small_estimates small-Required

report_first : report.provisional_candidate ≡ some "tiny"
unfolding recommend validate_catalog check_candidates check_identity is_hex_digest check_files
    integer validate check_devices budgets row_of estimate geometry assess estimate_of largest
    trainable parameter_shapes infer_parts infer_weights total train_parts with_margin
report_first = refl

recommend-provisional_example :
    (get_elem? report.shortlist 0 ≡ some "tiny")
    × ((p : Row) × (p.id ≡ "tiny")
        × RowOf workload report.plans catalog.candidates p
        × (p.verdict ≡ estimated_fit)
        × All (λ q. size_of p ≤ size_of q) (fits_of report.candidates))
recommend-provisional_example =
    recommend-provisional catalog snapshot workload soon report "tiny" report_ok report_first

abbrev late_report : Recommendation
late_report = made (recommend catalog snapshot workload late)

late_report_ok : recommend catalog snapshot workload late ≡ ok late_report
unfolding recommend validate_catalog check_candidates check_identity is_hex_digest check_files
    integer validate check_devices budgets row_of estimate geometry assess estimate_of largest
    trainable parameter_shapes infer_parts infer_weights total train_parts with_margin
late_report_ok = refl

recommend-IsOld_example : (late_report.shortlist ≡ []) × (late_report.provisional_candidate ≡ none)
recommend-IsOld_example =
    recommend-IsOld snapshot workload late (1000 * 10 ^ 6) refl (inr (omega arith)) catalog
      late_report late_report_ok

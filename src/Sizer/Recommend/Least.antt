-- ===== src/Sizer/Recommend/Least.antt =====
-- The order of the shortlist, and the provisional candidate.
use kilix_system_monitor.Prelude.{
  ℕ, ◌≤◌, ◌≡◌, refl, sym, ◌∙◌, ap, String, true, false, some, some-injective, List, [], ◌∷◌, arith,
  All, All-imp, All-places, get_elem?, get_elem?-map, get_elem?-keep, get_elem?-All, Bool-cases,
  if◌then◌else◌, inl, inr, subst,
}
use kilix_system_monitor.Sizer.Checked.{ok}
use kilix_system_monitor.Sizer.Resources.{Snapshot}
use kilix_system_monitor.Sizer.Geometry.{Workload}
use kilix_system_monitor.Sizer.Catalog.{Candidate, Catalog}
use kilix_system_monitor.Sizer.Recommend.{
  Row, estimated_fit, sort, size_of, Recommendation, recommend, fits_of, fitting_of, first_id,
  comes_before, insert, profiles_of, tasks_of, row_of, is_fit,
}
use kilix_system_monitor.Sizer.Recommend.Rows.{Required, row-Required}
use kilix_system_monitor.Sizer.Recommend.Shortlist.{
  insert-All, recommend-rows, fitting-RowOf, RowOf, row_id, ArePlans, recommend-ArePlans,
}

abbrev NoLarger : ℕ → Row → Type 0
NoLarger n q = n ≤ size_of q

-- The first row is the smallest.
abbrev StartsLeast : List Row → Type 0
StartsLeast [] = Unit
StartsLeast (r ∷ rs) = All (NoLarger (size_of r)) (r ∷ rs)

before-le : (r q : Row) → comes_before r q ≡ true → size_of r ≤ size_of q
before-le r q h = ground arith

after-le : (r q : Row) → comes_before r q ≡ false → size_of q ≤ size_of r
after-le r q h = ground arith

insert-StartsLeast : (r : Row) (qs : List Row) → StartsLeast qs → StartsLeast (insert r qs)
insert-StartsLeast r [] h = (omega arith, tt)
insert-StartsLeast r (q ∷ qs) h = elim (Bool-cases (comes_before r q)) [
  | inl e ↦ rw e (
    omega arith,
    All-imp (NoLarger (size_of q)) (NoLarger (size_of r)) (q ∷ qs)
        (λ p k. omega (arith, before-le r q e, k)) h,
  )
  | inr e ↦ rw e (h.0, insert-All _ r qs (after-le r q e) h.1)
]

sort-StartsLeast : (rs : List Row) → StartsLeast (sort rs)
sort-StartsLeast [] = tt
sort-StartsLeast (r ∷ rs) = insert-StartsLeast r (sort rs) (sort-StartsLeast rs)

insert-All_back {ℓ} :
    (P : Row → Type ℓ) (r : Row) (qs : List Row) → All P (insert r qs) → P r × All P qs
insert-All_back P r [] h = h
insert-All_back P r (q ∷ qs) h = elim (Bool-cases (comes_before r q)) [
  | inl e ↦ subst (λ b. All P (if b then r ∷ q ∷ qs else q ∷ insert r qs)) e h
  | inr e ↦
      let k = subst (λ b. All P (if b then r ∷ q ∷ qs else q ∷ insert r qs)) e h in
      let (at, rest) = insert-All_back P r qs k.1 in (at, (k.0, rest))
]

sort-All_back {ℓ} : (P : Row → Type ℓ) (rs : List Row) → All P (sort rs) → All P rs
sort-All_back P [] h = tt
sort-All_back P (r ∷ rs) h =
    let (at, rest) = insert-All_back P r (sort rs) h in (at, sort-All_back P rs rest)

starts-first :
    (rs : List Row) (id : String)
    → StartsLeast rs
    → first_id rs ≡ some id
    → (p : Row) × (get_elem? rs 0 ≡ some p) × (p.id ≡ id) × All (NoLarger (size_of p)) rs
starts-first [] id h e = cc
starts-first (r ∷ rs) id h e = (r, refl, some-injective _ _ e, h)

-- The provisional candidate is the first of the shortlist: its row fits, and is of a candidate of
-- the catalog such that no row that fits has fewer parameters.
pub recommend-provisional :
    (catalog : Catalog) (s : Snapshot) (w : Workload) (now : ℕ) (r : Recommendation) (id : String)
    → recommend catalog s w now ≡ ok r
    → r.provisional_candidate ≡ some id
    → (get_elem? r.shortlist 0 ≡ some id)
      × ((p : Row) × (p.id ≡ id)
          × RowOf w r.plans catalog.candidates p
          × (p.verdict ≡ estimated_fit)
          × All (λ q. size_of p ≤ size_of q) (fits_of r.candidates))
recommend-provisional catalog s w now r id h e =
    let (_, listed, first) = recommend-rows catalog s w now r h in
    let (p, at, same, least) =
      starts-first (fitting_of r.candidates) id (sort-StartsLeast (fits_of r.candidates))
        (sym first ∙ e) in
    let (found, fit) =
      get_elem?-All _ (fitting_of r.candidates) 0 p (fitting-RowOf catalog s w now r h) at in
    let place = get_elem?-map (λ row. Row.id row) (fitting_of r.candidates) 0 p at in
    (
      ap (λ ids. get_elem? ids 0) listed ∙ (place ∙ ap (λ name. some name) same),
      (p, same, found, fit, sort-All_back (NoLarger (size_of p)) (fits_of r.candidates) least),
    )

-- Every row that fits is on the shortlist.
fits_listed :
    (catalog : Catalog) (s : Snapshot) (w : Workload) (now : ℕ) (r : Recommendation)
    → recommend catalog s w now ≡ ok r
    → All (λ q. (i : ℕ) × (get_elem? r.shortlist i ≡ some (Row.id q))) (fits_of r.candidates)
fits_listed catalog s w now r h =
    let (_, listed, _) = recommend-rows catalog s w now r h in
    sort-All_back _ (fits_of r.candidates) (
      All-imp _ _ (fitting_of r.candidates)
        (λ q found.
          let (i, at) = found in
          (
            i,
            ap (λ ids. get_elem? ids i) listed
                ∙ get_elem?-map (λ row. Row.id row) (fitting_of r.candidates) i q at,
          ))
        (All-places (fitting_of r.candidates)))

-- A candidate of the catalog is on the shortlist where all its estimates succeed and, in each phase
-- asked for, the budgets that the snapshot leaves cover what is required of them.
pub recommend_complete :
    (catalog : Catalog) (s : Snapshot) (w : Workload) (now : ℕ) (r : Recommendation) (j : ℕ)
    (c : Candidate)
    → recommend catalog s w now ≡ ok r
    → get_elem? catalog.candidates j ≡ some c
    → (profiles_of c w (tasks_of w.task) r.plans).1 ≡ []
    → All (Required w (tasks_of w.task) (profiles_of c w (tasks_of w.task) r.plans).0) r.plans
    → ArePlans s w now r.plans × ((i : ℕ) × (get_elem? r.shortlist i ≡ some c.id))
recommend_complete catalog s w now r j c h at errors covered =
    let row = row_of w (tasks_of w.task) r.plans c in
    let (rows, _, _) = recommend-rows catalog s w now r h in
    let listed : get_elem? r.candidates j ≡ some row =
      ap (λ l. get_elem? l j) rows
      ∙ get_elem?-map (row_of w (tasks_of w.task) r.plans) catalog.candidates j c at in
    let fit : row.verdict ≡ estimated_fit =
      row-Required w (tasks_of w.task) r.plans c errors covered in
    let (k, kept) =
      get_elem?-keep (λ q. is_fit (Row.verdict q)) r.candidates j row listed (ap is_fit fit) in
    let (i, found) =
      get_elem?-All _ (fits_of r.candidates) k row (fits_listed catalog s w now r h) kept in
    (
      recommend-ArePlans catalog s w now r h,
      (i, found ∙ ap (λ name. some name) (sym (row_id w r.plans c))),
    )

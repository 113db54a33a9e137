-- ===== src/Sizer/Estimate/Peak.antt =====
-- The peaks of an estimate.
use kilix_system_monitor.Prelude.{
  ℕ, ◌+◌, ◌*◌, ◌/◌, ◌≤◌, ◌≡◌, refl, [], ◌∷◌, ◌++◌, arith, max, subst, if◌then◌else◌,
}
use kilix_system_monitor.Sizer.Checked.{ok, >>=-eq-ok}
use kilix_system_monitor.Sizer.Resources.{gib, Backend}
use kilix_system_monitor.Sizer.Geometry.{Task, Phase, Workload, Checkpoint, Geometry, geometry}
use kilix_system_monitor.Sizer.Estimate.{
  Parts, total, with_margin, train_parts, infer_parts, Estimate, estimate_of, estimate, is_train,
  is_cuda,
}

total-append : (ps qs : Parts) → total (ps ++ qs) ≡ total ps + total qs
unfolding total
total-append [] qs = omega arith
total-append (p ∷ ps) qs = omega (arith, total-append ps qs)

-- The margin is a quarter of what it is added to, rounded up.
pub total-with_margin :
    (ps : Parts) → total (with_margin ps) ≡ (total ps + gib / 2) + ((total ps + gib / 2) + 3) / 4
unfolding with_margin total
total-with_margin ps =
    let base : Parts = ps ++ ("runtime_allowance", gib / 2) ∷ [] in
    omega (
      arith,
      total-append ps (("runtime_allowance", gib / 2) ∷ []),
      total-append base (("uncertainty_margin", (total base + 3) / 4) ∷ []),
    )

-- The memory of the parts, with a margin of a quarter rounded up.
abbrev pub IsPeak : Parts → ℕ → Type 0
IsPeak ps peak =
    let base = total ps + gib / 2 in
    (peak ≡ total (with_margin ps)) × (5 * base ≤ 4 * peak) × (4 * peak ≤ 5 * base + 3)

abbrev pub phase_parts : Geometry → Task → Phase → Backend → Workload → Parts
phase_parts g task phase backend w =
    if is_train phase then train_parts g task backend w else infer_parts g task backend w

-- Where the peak of the parts goes.
abbrev pub ChargesPeak : Geometry → Backend → Estimate → ℕ → Type 0
ChargesPeak g backend e peak =
    (e.vram_peak_bytes ≡ (if is_cuda backend then peak else 0))
    × (e.ram_peak_bytes ≡ (
        if is_cuda backend
        then max g.checkpoint_bytes (g.parameters * 4) + gib
        else peak + g.checkpoint_bytes))

with_margin-IsPeak : (ps : Parts) → IsPeak ps (total (with_margin ps))
with_margin-IsPeak ps = let e = total-with_margin ps in (refl, omega (arith, e), omega (arith, e))

estimate-made :
    (checkpoint : Checkpoint) (task : Task) (phase : Phase) (backend : Backend) (w : Workload)
    (e : Estimate)
    → estimate checkpoint task phase backend w ≡ ok e
    → (g : Geometry) × (geometry checkpoint ≡ ok g)
      × (w.context ≤ g.max_position_embeddings)
      × (estimate_of g task phase backend w ≡ e)
unfolding estimate
estimate-made checkpoint task phase backend w e h =
    let (g, at, rest) = >>=-eq-ok (geometry checkpoint) _ e h in (g, at, ground arith, ground arith)

abbrev MadeOf : Geometry → Task → Phase → Backend → Workload → Estimate → Type 0
MadeOf g task phase backend w e =
    (peak : ℕ) × (total e.breakdown_bytes ≡ peak)
    × IsPeak (phase_parts g task phase backend w) peak
    × ChargesPeak g backend e peak

estimate_of-MadeOf :
    (g : Geometry) (task : Task) (phase : Phase) (backend : Backend) (w : Workload)
    → MadeOf g task phase backend w (estimate_of g task phase backend w)
unfolding estimate_of
estimate_of-MadeOf g task phase backend w =
    let ps = phase_parts g task phase backend w in
    (total (with_margin ps), refl, with_margin-IsPeak ps, (refl, refl))

-- An estimate is made only for a context within the checkpoint's maximum. Its breakdown sums to the
-- peak, the parts of the phase with half a GiB and a margin of a quarter rounded up; the peak is
-- video memory on CUDA, where RAM stages an unquantized checkpoint, and RAM beside the checkpoint
-- elsewhere.
pub estimate-IsPeak :
    (checkpoint : Checkpoint) (task : Task) (phase : Phase) (backend : Backend) (w : Workload)
    (e : Estimate)
    → estimate checkpoint task phase backend w ≡ ok e
    → (g : Geometry) × (geometry checkpoint ≡ ok g)
      × (w.context ≤ g.max_position_embeddings)
      × ((peak : ℕ) × (total e.breakdown_bytes ≡ peak)
          × IsPeak (phase_parts g task phase backend w) peak
          × ChargesPeak g backend e peak)
estimate-IsPeak checkpoint task phase backend w e h =
    let (g, at, within, made) = estimate-made checkpoint task phase backend w e h in
    (
      g,
      at,
      within,
      subst (MadeOf g task phase backend w) made (estimate_of-MadeOf g task phase backend w),
    )

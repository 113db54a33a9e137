-- ===== src/ProcessTree/Walk.antt =====
-- The walk ends: each process is pushed once, when its parent is selected.
use kilix_system_monitor.Prelude.{
  ℕ, zero, suc, ◌+◌, ◌≤◌, ◌≡◌, refl, sym, ◌∙◌, ap, Bool, true, false, not, ◌||◌, Option, some, List,
  [], ◌∷◌, ◌==◌, length, if◌then◌else◌, Bool-cases, inl, inr, arith, subst, ==_iff,
}
use kilix_system_monitor.ProcessTree.{
  Process, mem, live, children_of, extend, walk, descendant_pids,
}

length-extend :
    (pids pending : List ℕ) → length (extend pids pending) ≡ length pids + length pending
length-extend [] pending = omega arith
length-extend (pid ∷ pids) pending = omega (arith, length-extend pids (pid ∷ pending))

-- The processes whose parent is not selected yet.
abbrev waiting : List ℕ → List Process → ℕ
waiting selected [] = 0
waiting selected (p ∷ ps) =
    if mem p.ppid selected then waiting selected ps else suc (waiting selected ps)

waiting-select :
    (pid : ℕ) (selected : List ℕ) (ps : List Process)
    → mem pid selected ≡ false
    → waiting (pid ∷ selected) ps + length (children_of pid ps) ≤ waiting selected ps
waiting-select pid selected [] h = omega arith
waiting-select pid selected (p ∷ ps) h = elim (Bool-cases (p.ppid == pid)) [
  | inl e ↦
      let same = (==_iff p.ppid pid).0 e in
      let out : mem p.ppid selected ≡ false = ap (λ n. mem n selected) same ∙ h in
      let at : (pid == p.ppid) ≡ true = (==_iff pid p.ppid).1 (sym same) in
      rw (e, out, at) (omega (arith, waiting-select pid selected ps h))
  | inr e ↦ ground (arith, waiting-select pid selected ps h)
]

waiting-le : (selected : List ℕ) (ps : List Process) → waiting selected ps ≤ length ps
waiting-le selected [] = omega arith
waiting-le selected (p ∷ ps) = ground (arith, waiting-le selected ps)

pub walk-nil :
    (ps : List Process) (fuel : ℕ) (selected : List ℕ) → walk ps fuel selected [] ≡ some selected
unfolding walk
walk-nil ps fuel selected = refl

abbrev pub skips : List Process → ℕ → List ℕ → Bool
skips ps pid selected = mem pid selected || not (mem pid (live ps))

-- The two ways a round goes.
pub walk-round :
    (ps : List Process) (fuel : ℕ) (selected : List ℕ) (pid : ℕ) (pending : List ℕ) (b : Bool)
    → skips ps pid selected ≡ b
    → walk ps (suc fuel) selected (pid ∷ pending)
      ≡ walk ps fuel
          (if b then selected else pid ∷ selected)
          (if b then pending else extend (children_of pid ps) pending)
unfolding walk
walk-round ps fuel selected pid pending b h =
    ap
      (λ b.
        walk ps fuel (if b then selected else pid ∷ selected)
          (if b then pending else extend (children_of pid ps) pending))
      h

abbrev Ends : Option (List ℕ) → Type 0
Ends found = (selected : List ℕ) × (found ≡ some selected)

walk-Ends :
    (ps : List Process) (fuel : ℕ) (selected pending : List ℕ)
    → length pending + waiting selected ps ≤ fuel
    → Ends (walk ps fuel selected pending)
walk-Ends ps fuel selected [] h = (selected, walk-nil ps fuel selected)
walk-Ends ps zero selected (pid ∷ pending) h = absurd (omega (arith, h))
walk-Ends ps (suc fuel) selected (pid ∷ pending) h = elim (Bool-cases (skips ps pid selected)) [
  | inl e ↦
      subst Ends (sym (walk-round ps fuel selected pid pending true e))
        (walk-Ends ps fuel selected pending (omega (arith, h)))
  | inr e ↦
      let new : mem pid selected ≡ false = ground arith in
      subst Ends (sym (walk-round ps fuel selected pid pending false e)) (
        walk-Ends ps fuel (pid ∷ selected) (extend (children_of pid ps) pending) (
          omega (
            arith,
            h,
            length-extend (children_of pid ps) pending,
            waiting-select pid selected ps new,
          )))
]

-- The fuel of `descendant_pids` is enough: it always gives a list.
pub descendant_pids-ends :
    (ps : List Process) (roots : List ℕ)
    → (found : List ℕ) × (descendant_pids ps roots ≡ some found)
unfolding descendant_pids
descendant_pids-ends ps roots =
    walk-Ends ps (length roots + length ps) [] (extend roots [])
      (omega (arith, length-extend roots [], waiting-le [] ps))

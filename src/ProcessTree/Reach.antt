-- ===== src/ProcessTree/Reach.antt =====
-- What the walk selects.
use kilix_system_monitor.Prelude.{
  ℕ, zero, suc, ◌+◌, ◌≡◌, ◌↔◌, refl, sym, ◌∙◌, ap, subst, true, false, ◌||◌, some, some-injective,
  List, [], ◌∷◌, ◌==◌, length, Bool-cases, inl, inr, arith, ==_iff,
}
use kilix_system_monitor.ProcessTree.{
  Process, mem, live, children_of, extend, walk, descendant_pids,
}
use kilix_system_monitor.ProcessTree.Walk.{skips, walk-nil, walk-round, descendant_pids-ends}

-- A live root, or a process whose parent is one of these.
pub data Descends (ps : List Process) (roots : List ℕ) : ℕ → Type 0 where
  root : (pid : ℕ) → mem pid roots ≡ true → mem pid (live ps) ≡ true → Descends ps roots pid
  child :
      (parent pid : ℕ)
      → Descends ps roots parent
      → mem pid (children_of parent ps) ≡ true
      → Descends ps roots pid

mem-extend :
    (pid : ℕ) (pids pending : List ℕ)
    → mem pid (extend pids pending) ≡ (mem pid pids || mem pid pending)
mem-extend pid [] pending = refl
mem-extend pid (p ∷ pids) pending = ground (arith, mem-extend pid pids (p ∷ pending))

child-live :
    (pid parent : ℕ) (ps : List Process)
    → mem pid (children_of parent ps) ≡ true
    → mem pid (live ps) ≡ true
child-live pid parent [] h = cc
child-live pid parent (p ∷ ps) h = ground (arith, child-live pid parent ps)

out-of_fuel :
    (ps : List Process) (selected : List ℕ) (p : ℕ) (pending found : List ℕ)
    → ¬ (walk ps zero selected (p ∷ pending) ≡ some found)
unfolding walk
out-of_fuel ps selected p pending found h = cc

module _ (ps : List Process) (roots : List ℕ) where
  abbrev IsSeen : List ℕ → List ℕ → ℕ → Type 0
  IsSeen selected pending pid = (mem pid selected || mem pid pending) ≡ true

  -- Every pending process that is live descends from a root, and every selected one does; every live
  -- root and every child of a selected process is selected or pending.
  abbrev IsWalk : List ℕ → List ℕ → Type 0
  IsWalk selected pending =
      ((pid : ℕ) → mem pid pending ≡ true → mem pid (live ps) ≡ true → Descends ps roots pid)
      × ((pid : ℕ) → mem pid selected ≡ true → Descends ps roots pid)
      × ((pid : ℕ) → mem pid roots ≡ true → mem pid (live ps) ≡ true → IsSeen selected pending pid)
      × ((parent pid : ℕ)
          → mem parent selected ≡ true
          → mem pid (children_of parent ps) ≡ true
          → IsSeen selected pending pid)

  skip-IsSeen :
      (selected pending : List ℕ) (p pid : ℕ)
      → skips ps p selected ≡ true
      → mem pid (live ps) ≡ true
      → IsSeen selected (p ∷ pending) pid
      → IsSeen selected pending pid
  skip-IsSeen selected pending p pid e l seen = elim (Bool-cases (p == pid)) [
    | inl same ↦
        let skipped : skips ps pid selected ≡ true =
          ap (λ n. skips ps n selected) (sym ((==_iff p pid).0 same)) ∙ e in
        ground arith
    | inr differ ↦ ground arith
  ]

  skip-IsWalk :
      (selected pending : List ℕ) (p : ℕ)
      → skips ps p selected ≡ true
      → IsWalk selected (p ∷ pending)
      → IsWalk selected pending
  skip-IsWalk selected pending p e (sound, kept, at_root, at_child) = (
    (λ pid h l. sound pid (ground arith) l),
    kept,
    (λ pid h l. skip-IsSeen selected pending p pid e l (at_root pid h l)),
    (λ parent pid h k.
        skip-IsSeen selected pending p pid e (child-live pid parent ps k)
          (at_child parent pid h k)),
  )

  select-IsSeen :
      (selected pending : List ℕ) (p pid : ℕ)
      → IsSeen selected (p ∷ pending) pid
      → IsSeen (p ∷ selected) (extend (children_of p ps) pending) pid
  select-IsSeen selected pending p pid seen =
      ground (arith, mem-extend pid (children_of p ps) pending)

  select-root :
      (selected pending : List ℕ) (p : ℕ)
      → skips ps p selected ≡ false
      → IsWalk selected (p ∷ pending)
      → Descends ps roots p
  select-root selected pending p e (sound, kept, at_root, at_child) =
      let here : (p == p) ≡ true = (==_iff p p).1 refl in sound p (ground arith) (ground arith)

  select-pending :
      (selected pending : List ℕ) (p pid : ℕ)
      → skips ps p selected ≡ false
      → IsWalk selected (p ∷ pending)
      → mem pid (extend (children_of p ps) pending) ≡ true
      → mem pid (live ps) ≡ true
      → Descends ps roots pid
  select-pending selected pending p pid e walking h l =
      elim (Bool-cases (mem pid (children_of p ps))) [
        | inl c ↦ Descends.child p pid (select-root selected pending p e walking) c
        | inr c ↦
            let below : mem pid pending ≡ true =
              ground (arith, mem-extend pid (children_of p ps) pending) in
            walking.0 pid (ground arith) l
      ]

  select-kept :
      (selected pending : List ℕ) (p pid : ℕ)
      → skips ps p selected ≡ false
      → IsWalk selected (p ∷ pending)
      → mem pid (p ∷ selected) ≡ true
      → Descends ps roots pid
  select-kept selected pending p pid e walking h = elim (Bool-cases (p == pid)) [
    | inl same ↦
        subst (Descends ps roots) ((==_iff p pid).0 same) (select-root selected pending p e walking)
    | inr differ ↦ walking.1 pid (ground arith)
  ]

  select-child :
      (selected pending : List ℕ) (p parent pid : ℕ)
      → IsWalk selected (p ∷ pending)
      → mem parent (p ∷ selected) ≡ true
      → mem pid (children_of parent ps) ≡ true
      → IsSeen (p ∷ selected) (extend (children_of p ps) pending) pid
  select-child selected pending p parent pid walking h k = elim (Bool-cases (p == parent)) [
    | inl same ↦
        let own : mem pid (children_of p ps) ≡ true =
          ap (λ n. mem pid (children_of n ps)) ((==_iff p parent).0 same) ∙ k in
        ground (arith, mem-extend pid (children_of p ps) pending)
    | inr differ ↦ select-IsSeen selected pending p pid (walking.3 parent pid (ground arith) k)
  ]

  select-IsWalk :
      (selected pending : List ℕ) (p : ℕ)
      → skips ps p selected ≡ false
      → IsWalk selected (p ∷ pending)
      → IsWalk (p ∷ selected) (extend (children_of p ps) pending)
  select-IsWalk selected pending p e walking = (
    (λ pid h l. select-pending selected pending p pid e walking h l),
    (λ pid h. select-kept selected pending p pid e walking h),
    (λ pid h l. select-IsSeen selected pending p pid (walking.2 pid h l)),
    (λ parent pid h k. select-child selected pending p parent pid walking h k),
  )

  walk-IsWalk :
      (fuel : ℕ) (selected pending found : List ℕ)
      → walk ps fuel selected pending ≡ some found
      → IsWalk selected pending
      → IsWalk found []
  walk-IsWalk fuel selected [] found h walking =
      subst (λ s. IsWalk s []) (some-injective _ _ (sym (walk-nil ps fuel selected) ∙ h)) walking
  walk-IsWalk zero selected (p ∷ pending) found h walking =
      absurd (out-of_fuel ps selected p pending found h)
  walk-IsWalk (suc fuel) selected (p ∷ pending) found h walking =
      elim (Bool-cases (skips ps p selected)) [
        | inl e ↦
            walk-IsWalk fuel selected pending found
              (sym (walk-round ps fuel selected p pending true e) ∙ h)
              (skip-IsWalk selected pending p e walking)
        | inr e ↦
            walk-IsWalk fuel (p ∷ selected) (extend (children_of p ps) pending) found
              (sym (walk-round ps fuel selected p pending false e) ∙ h)
              (select-IsWalk selected pending p e walking)
      ]

  start-IsWalk : IsWalk [] (extend roots [])
  start-IsWalk = (
    (λ pid h l. Descends.root pid (ground (arith, mem-extend pid roots [])) l),
    (λ pid h. absurd (ground arith)),
    (λ pid h l. ground (arith, mem-extend pid roots [])),
    (λ parent pid h k. absurd (ground arith)),
  )

  descendants-IsWalk : (found : List ℕ) → descendant_pids ps roots ≡ some found → IsWalk found []
  unfolding descendant_pids
  descendants-IsWalk found e =
      walk-IsWalk (length roots + length ps) [] (extend roots []) found e start-IsWalk

  found-all :
      (found : List ℕ) → IsWalk found [] → (pid : ℕ) → Descends ps roots pid → mem pid found ≡ true
  found-all found walking _ (Descends.root pid h l) = let seen = walking.2 pid h l in ground arith
  found-all found walking _ (Descends.child parent pid d h) =
      let seen = walking.3 parent pid (found-all found walking parent d) h in ground arith

-- `_descendant_pids` ends, whatever the parents in the table are, and selects exactly the live roots
-- and the processes below them.
pub descendant_pids-Descends :
    (ps : List Process) (roots : List ℕ)
    → (found : List ℕ) × (descendant_pids ps roots ≡ some found)
      × ((pid : ℕ) → (mem pid found ≡ true) ↔ Descends ps roots pid)
descendant_pids-Descends ps roots =
    let (found, e) = descendant_pids-ends ps roots in
    let walking = descendants-IsWalk ps roots found e in
    (found, e, (λ pid. (walking.1 pid, found-all ps roots found walking pid)))

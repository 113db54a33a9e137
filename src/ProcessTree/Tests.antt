-- ===== src/ProcessTree/Tests.antt =====
-- A process table with a cycle of parents.
use kilix_system_monitor.Prelude.{ℕ, ◌≡◌, ◌↔◌, refl, true, some, List, [], ◌∷◌}
use kilix_system_monitor.ProcessTree.{Process, mem, walk, descendant_pids}
use kilix_system_monitor.ProcessTree.Reach.{Descends, descendant_pids-Descends}

abbrev table : List Process
table =
    record { pid = 10; ppid = 1 }
    ∷ record { pid = 11; ppid = 10 }
    ∷ record { pid = 12; ppid = 11 }
    ∷ record { pid = 20; ppid = 21 }
    ∷ record { pid = 21; ppid = 20 }
    ∷ record { pid = 30; ppid = 1 }
    ∷ []

descendant_pids_run : descendant_pids table (10 ∷ 20 ∷ 99 ∷ []) ≡ some (12 ∷ 11 ∷ 10 ∷ 21 ∷ 20 ∷ [])
unfolding descendant_pids walk
descendant_pids_run = refl

descendant_pids-Descends_example :
    (found : List ℕ) × (descendant_pids table (10 ∷ 20 ∷ 99 ∷ []) ≡ some found)
    × ((pid : ℕ) → (mem pid found ≡ true) ↔ Descends table (10 ∷ 20 ∷ 99 ∷ []) pid)
descendant_pids-Descends_example = descendant_pids-Descends table (10 ∷ 20 ∷ 99 ∷ [])

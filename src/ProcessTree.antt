-- ===== src/ProcessTree.antt =====
-- The process tree of a snapshot: `_process_children` and `_descendant_pids` of
-- components/kilix-telemetry/src/kilix_telemetry/model.py.
pub mod Walk
pub mod Reach
mod Tests
use kilix_system_monitor.Prelude.{
  ℕ, zero, suc, ◌+◌, Bool, true, false, not, ◌||◌, Option, none, some, List, [], ◌∷◌, map, ◌==◌,
  keep, any, length, if◌then◌else◌,
}

pub record Process : Type 0 where
  pub pid : ℕ
  pub ppid : ℕ

abbrev pub mem : ℕ → List ℕ → Bool
mem pid pids = any (λ p. p == pid) pids

-- `live` of `_process_children`: the identifiers in the table.
abbrev pub live : List Process → List ℕ
live processes = map (λ p. Process.pid p) processes

-- `children.get(pid, ())`, in the order of the table.
abbrev pub children_of : ℕ → List Process → List ℕ
children_of pid processes = map (λ p. Process.pid p) (keep (λ p. Process.ppid p == pid) processes)

-- `pending.extend(...)`, for a list whose last element is the head here.
abbrev pub extend : List ℕ → List ℕ → List ℕ
extend [] pending = pending
extend (pid ∷ pids) pending = extend pids (pid ∷ pending)

-- The loop of `_descendant_pids`; none where the fuel is out.
unfoldable pub walk : List Process → ℕ → List ℕ → List ℕ → Option (List ℕ)
walk processes fuel selected [] = some selected
walk processes zero selected (pid ∷ pending) = none
walk processes (suc fuel) selected (pid ∷ pending) =
    let skip = mem pid selected || not (mem pid (live processes)) in
    walk processes fuel (if skip then selected else pid ∷ selected)
      (if skip then pending else extend (children_of pid processes) pending)

-- `_descendant_pids`
unfoldable pub descendant_pids : List Process → List ℕ → Option (List ℕ)
descendant_pids processes roots =
    walk processes (length roots + length processes) [] (extend roots [])

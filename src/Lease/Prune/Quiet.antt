-- ===== src/Lease/Prune/Quiet.antt =====
-- Pruning leaves the grant and its lock alone.
use kilix_system_monitor.Prelude.{List, [], ◌∷◌, leb, arith, ◌+◌}
use kilix_system_monitor.Lease.Entry.{max_queue, Entry}
use kilix_system_monitor.Lease.Exec.{Result, ok, err, unavailable, Exec, require}
use kilix_system_monitor.Lease.Namespace.{Namespace, Env, unlink_ticket}
use kilix_system_monitor.Lease.Namespace.Frame.{
  IsQuiet, IsQuiet-bind, IsQuiet-unlink, save-SameGrant,
}
use kilix_system_monitor.Lease.Prune.{
  Swept, scan, save_retained, unlink_all, entry_count, sweep, prune_with, prune,
}

IsQuiet-save_retained : (env : Env) (retained : List Entry) → IsQuiet (save_retained env retained)
IsQuiet-save_retained env retained = record {
  at = λ ns. ground (arith, save-SameGrant env (record ns.state { queue = retained }) ns);
}

IsQuiet-unlink_all : (removed : List Entry) → IsQuiet (unlink_all removed)
unfolding unlink_all
IsQuiet-unlink_all [] = record { at = λ ns. ground arith }
IsQuiet-unlink_all (item ∷ removed) =
    IsQuiet-bind (unlink_ticket item) (λ _. unlink_all removed) (IsQuiet-unlink item)
      (λ _. IsQuiet-unlink_all removed)

abbrev bounded_names : Exec Namespace (Unit {0})
bounded_names ns = require (leb (entry_count ns) (max_queue + 5)) unavailable ns

IsQuiet-bounded_names : IsQuiet bounded_names
IsQuiet-bounded_names = record { at = λ ns. ground arith }

IsQuiet-sweep : (env : Env) (known : List Entry) → IsQuiet (sweep env known)
IsQuiet-sweep env known = record { at = λ ns. ground arith }

IsQuiet-prune_with : (env : Env) (r : Result Swept) → IsQuiet (prune_with env r)
IsQuiet-prune_with env (err c) = record { at = λ ns. ground arith }
IsQuiet-prune_with env (ok swept) =
    search (
      IsQuiet-bind, IsQuiet-save_retained, IsQuiet-unlink_all, IsQuiet-bounded_names, IsQuiet-sweep,
    )

pub IsQuiet-prune : (env : Env) → IsQuiet (prune env)
unfolding prune
IsQuiet-prune env = record {
  at = λ ns. (IsQuiet-prune_with env (scan env ns.tickets ns.state.queue)).at ns;
}

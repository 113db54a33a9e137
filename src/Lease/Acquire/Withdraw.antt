-- ===== src/Lease/Acquire/Withdraw.antt =====
-- A request that fails takes its own entry out of the queue and leaves the others.
use kilix_system_monitor.Prelude.{
  ◌≡◌, refl, true, false, none, some, List, [], ◌∷◌, arith, leb, String, ◌⊎◌,
}
use text.Mathlib.TextPositions.{eq_refl}
use kilix_system_monitor.Lease.Entry.{Entry, State, same_refl}
use kilix_system_monitor.Lease.Schema.{is_valid}
use kilix_system_monitor.Lease.Schema.Preserve.{keep-is_valid}
use kilix_system_monitor.Lease.Exec.{ok}
use kilix_system_monitor.Lease.Namespace.{Namespace, Env, save, open_registry, max_bytes}
use kilix_system_monitor.Lease.Namespace.Frame.{unlink_frame}
use kilix_system_monitor.Lease.Prune.{same_entry}
use kilix_system_monitor.Lease.Acquire.{without, find_entry, withdraw}

same_entry_refl : (a : Entry) → same_entry a a ≡ true
unfolding same_entry
same_entry_refl a =
    ground (arith, eq_refl a.ticket, eq_refl a.job_id, eq_refl a.device, same_refl a.workload)

without_absent : (t : String) (l : List Entry) → find_entry t l ≡ none → without t l ≡ l
unfolding find_entry
without_absent t [] h = refl
without_absent t (x ∷ l) h = ground (arith, without_absent t l)

-- `save` accepts: nothing in the way of the new file.
pub save-ok :
    (env : Env) (value : State) (ns : Namespace)
    → is_valid value ≡ true
    → leb (env.record_size value) max_bytes ≡ true
    → ns.stale ≡ none
    → save env value ns ≡ (ok tt, record ns { state = value })
unfolding save
save-ok env value ns v size stale = ground arith

-- A withdrawal that reaches the registry, where the request's own entry is queued or gone, leaves
-- the queue without that entry and the rest of the record as it was: the namespace is anchored, its
-- record acceptable, the record without the entry within the size bound, and no `state.next` is left over.
pub withdraw-queue :
    (env : Env) (item : Entry) (ns : Namespace)
    → ns.anchored ≡ true
    → is_valid ns.state ≡ true
    → (find_entry item.ticket ns.state.queue ≡ some item)
      ⊎ (find_entry item.ticket ns.state.queue ≡ none)
    → leb
        (env.record_size (record ns.state { queue = without item.ticket ns.state.queue }))
        max_bytes
      ≡ true
    → ns.stale ≡ none
    → (withdraw env false (some item) ns).state
      ≡ record ns.state { queue = without item.ticket ns.state.queue }
unfolding withdraw open_registry
withdraw-queue env item ns anchored valid found size stale =
    let value = record ns.state { queue = without item.ticket ns.state.queue } in
    ground (
      arith,
      same_entry_refl item,
      without_absent item.ticket ns.state.queue,
      save-ok env value ns (keep-is_valid ns.state _ valid) size stale,
      unlink_frame item (record ns { state = value }),
    )

-- ===== src/Lease/Prune.antt =====
-- `_Registry.prune`: the queue entries whose requester is gone or late, and the ticket files that
-- no entry names. All readings of the clock in one pass are one value, `env.now`.
pub mod Quiet
pub mod Queue
use kilix_system_monitor.Prelude.{
  ℕ, ◌+◌, Bool, true, false, not, ◌&&◌, ◌||◌, Option, none, some, List, [], ◌∷◌, leb, ◌==◌, str_eq,
  any, length, if◌then◌else◌,
}
use kilix_system_monitor.Lease.Entry.{same, max_queue, Entry}
use kilix_system_monitor.Lease.Schema.{is_token}
use kilix_system_monitor.Lease.Exec.{Result, ok, err, unavailable, Exec, pure, raise, ◌>>◌, require}
use kilix_system_monitor.Lease.Namespace.{
  FileStat, TicketFile, Namespace, Env, same_inode, is_trusted, find_ticket, save, unlink_ticket,
}

-- `==` on entries.
unfoldable pub same_entry : Entry → Entry → Bool
same_entry a b =
    str_eq a.ticket b.ticket
    && str_eq a.job_id b.job_id
    && same a.workload b.workload
    && str_eq a.device b.device
    && a.sequence == b.sequence
    && a.deadline == b.deadline
    && same_inode a.inode b.inode

-- `==` on queues.
unfoldable pub same_queue : List Entry → List Entry → Bool
same_queue [] [] = true
same_queue (a ∷ as') (b ∷ bs) = same_entry a b && same_queue as' bs
same_queue _ _ = false

pub record Swept : Type 0 where
  pub retained : List Entry
  pub removed : List Entry

-- One entry, against the file of its ticket: without a file it is dropped; a free lock means that
-- its requester is gone.
abbrev judge : Env → Entry → Option TicketFile → Result Swept → Result Swept
judge env item none rest = rest
judge env item (some f) (err c) = err c
judge env item (some f) (ok swept) =
    if is_trusted env f.stat && same_inode f.stat.identity item.inode
    then ok (
        if not f.locked || leb item.deadline env.now
        then record swept { removed = item ∷ swept.removed }
        else record swept { retained = item ∷ swept.retained })
    else err unavailable

unfoldable pub scan : Env → List TicketFile → List Entry → Result Swept
scan env files [] = ok (record { retained = []; removed = [] })
scan env files (item ∷ queue) =
    judge env item (find_ticket item.ticket files) (scan env files queue)

abbrev save_retained : Env → List Entry → Exec Namespace (Unit {0})
save_retained env retained ns =
    if same_queue retained ns.state.queue
    then (ok tt, ns)
    else save env (record ns.state { queue = retained }) ns

unfoldable pub unlink_all : List Entry → Exec Namespace (Unit {0})
unlink_all [] = pure tt
unlink_all (item ∷ removed) = do unlink_ticket item; unlink_all removed

abbrev present : Option FileStat → ℕ
present none = 0
present (some info) = 1

-- `len(os.listdir(...))`: `accelerator.lock` and `state.json` besides.
abbrev pub entry_count : Namespace → ℕ
entry_count ns = length ns.tickets + ns.foreign + present ns.stale + 2

-- The unreferenced tickets whose lock is free are unlinked, up to a file that is refused.
unfoldable pub sweep_files :
    Env → List Entry → List TicketFile → Result (Unit {0}) × List TicketFile
sweep_files env known [] = (ok tt, [])
sweep_files env known (f ∷ files) =
    let rest = sweep_files env known files in
    if not (is_token f.name) || any (λ item. str_eq item.ticket f.name) known
    then (rest.0, f ∷ rest.1)
    else if not (is_trusted env f.stat)
    then (err unavailable, f ∷ files)
    else if f.locked
    then (rest.0, f ∷ rest.1)
    else rest

abbrev sweep : Env → List Entry → Exec Namespace (Unit {0})
sweep env known ns =
    let swept = sweep_files env known ns.tickets in (swept.0, record ns { tickets = swept.1 })

abbrev prune_with : Env → Result Swept → Exec Namespace (Unit {0})
prune_with env (err c) = raise c
prune_with env (ok swept) = do
  save_retained env swept.retained
  unlink_all swept.removed
  λ ns. require (leb (entry_count ns) (max_queue + 5)) unavailable ns
  sweep env swept.retained

-- `_Registry.prune`
unfoldable pub prune : Env → Exec Namespace (Unit {0})
prune env ns = prune_with env (scan env ns.tickets ns.state.queue) ns

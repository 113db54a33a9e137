-- ===== src/Lease/Prune/Queue.antt =====
-- What a successful pruning retains: the requests whose requester is alive and not late.
use kilix_system_monitor.Prelude.{
  ℕ, ◌≡◌, refl, Bool, true, false, ◌&&◌, Option, none, some, List, [], ◌∷◌, arith, ltb, eq_iff,
  keep, if◌then◌else◌,
}
use kilix_system_monitor.Lease.Entry.{same-eq, Entry}
use kilix_system_monitor.Lease.Exec.{Result, ok, err}
use kilix_system_monitor.Lease.Namespace.{
  TicketFile, Namespace, Env, same_inode, find_ticket, unlink_ticket,
}
use kilix_system_monitor.Lease.Namespace.Frame.{save_cases, unlink_frame}
use kilix_system_monitor.Lease.Prune.{
  same_entry, same_queue, Swept, judge, scan, save_retained, unlink_all, prune_with, prune,
}

-- Its ticket file is locked, so its requester is alive, and its deadline is ahead.
abbrev pub lives : Env → Entry → Option TicketFile → Bool
lives env item none = false
lives env item (some f) = f.locked && ltb env.now item.deadline

abbrev pub is_live : Env → List TicketFile → Entry → Bool
is_live env files item = lives env item (find_ticket item.ticket files)

judge-retained :
    (env : Env) (item : Entry) (f : Option TicketFile) (r : Result Swept) (rest : List Entry)
    (swept : Swept)
    → ((s : Swept) → r ≡ ok s → s.retained ≡ rest)
    → judge env item f r ≡ ok swept
    → swept.retained ≡ (if lives env item f then item ∷ rest else rest)
judge-retained env item none r rest swept h e = h swept e
judge-retained env item (some f) (err c) rest swept h e = cc
judge-retained env item (some f) (ok s) rest swept h e = ground (arith, h s)

scan-retained :
    (env : Env) (files : List TicketFile) (queue : List Entry) (swept : Swept)
    → scan env files queue ≡ ok swept
    → swept.retained ≡ keep (is_live env files) queue
unfolding scan
scan-retained env files [] swept e = ground arith
scan-retained env files (item ∷ queue) swept e =
    judge-retained env item (find_ticket item.ticket files) (scan env files queue)
      (keep (is_live env files) queue) swept (scan-retained env files queue) e

same_inode-eq : (a b : ℕ × ℕ) → same_inode a b ≡ true → a ≡ b
same_inode-eq (d, i) (e, j) h = ground arith

pub same_entry-eq : (a b : Entry) → same_entry a b ≡ true → a ≡ b
unfolding same_entry
same_entry-eq a b h = ground (
  arith,
  eq_iff a.ticket b.ticket,
  eq_iff a.job_id b.job_id,
  eq_iff a.device b.device,
  same-eq a.workload b.workload,
  same_inode-eq a.inode b.inode,
)

same_queue-eq : (a b : List Entry) → same_queue a b ≡ true → a ≡ b
unfolding same_queue
same_queue-eq [] [] h = refl
same_queue-eq [] (y ∷ b) h = cc
same_queue-eq (x ∷ a) [] h = cc
same_queue-eq (x ∷ a) (y ∷ b) h = ground (arith, same_entry-eq x y, same_queue-eq a b)

unlink_all-state : (items : List Entry) (ns : Namespace) → (unlink_all items ns).1.state ≡ ns.state
unfolding unlink_all
unlink_all-state [] ns = refl
unlink_all-state (item ∷ items) ns =
    ground (arith, unlink_frame item ns, unlink_all-state items (unlink_ticket item ns).1)

save_retained-state :
    (env : Env) (retained : List Entry) (ns : Namespace)
    → (save_retained env retained ns).0 ≡ ok tt
    → (save_retained env retained ns).1.state ≡ record ns.state { queue = retained }
save_retained-state env retained ns h = ground (
  arith,
  save_cases env (record ns.state { queue = retained }) ns,
  same_queue-eq retained ns.state.queue,
)

prune_with-state :
    (env : Env) (swept : Swept) (ns : Namespace)
    → (prune_with env (ok swept) ns).0 ≡ ok tt
    → (prune_with env (ok swept) ns).1.state ≡ record ns.state { queue = swept.retained }
prune_with-state env swept ns h =
    let saved = save_retained env swept.retained ns in
    ground
      (arith, save_retained-state env swept.retained ns, unlink_all-state swept.removed saved.1)

prune_with-retained :
    (env : Env) (r : Result Swept) (ns : Namespace) (queue : List Entry)
    → ((swept : Swept) → r ≡ ok swept → swept.retained ≡ queue)
    → (prune_with env r ns).0 ≡ ok tt
    → (prune_with env r ns).1.state ≡ record ns.state { queue = queue }
prune_with-retained env (err c) ns queue h e = cc
prune_with-retained env (ok swept) ns queue h e =
    rw (← h swept refl) (prune_with-state env swept ns e)

-- When pruning succeeds, the saved record has changed in its queue alone, and the queue holds, in
-- their order, exactly the entries whose ticket file exists, is locked by a live requester, and
-- whose deadline is ahead.
pub prune-queue :
    (env : Env) (ns : Namespace)
    → (prune env ns).0 ≡ ok tt
    → (prune env ns).1.state
      ≡ record ns.state { queue = keep (is_live env ns.tickets) ns.state.queue }
unfolding prune
prune-queue env ns e =
    prune_with-retained env (scan env ns.tickets ns.state.queue) ns _
      (scan-retained env ns.tickets ns.state.queue) e

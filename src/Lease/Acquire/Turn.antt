-- ===== src/Lease/Acquire/Turn.antt =====
-- The turn of the request at the head of the order, when the accelerator is free.
use kilix_system_monitor.Prelude.{
  ℕ, String, ◌≡◌, refl, true, false, Option, none, some, List, [], ◌∷◌, arith, leb, str_eq, any,
  get_elem?,
}
use kilix_system_monitor.Lease.Entry.{Entry, held}
use kilix_system_monitor.Lease.Schema.{is_valid}
use kilix_system_monitor.Lease.Order.{order}
use kilix_system_monitor.Lease.Exec.{ok}
use kilix_system_monitor.Lease.Namespace.{
  TicketFile, Namespace, Env, unlink_ticket, max_bytes, find_ticket, same_inode,
}
use kilix_system_monitor.Lease.Acquire.{
  Session, granted, is_held, granted_state, new_lease, is_head, grant, serve,
}
use kilix_system_monitor.Lease.Acquire.Saved.{granted_state-is_valid}
use kilix_system_monitor.Lease.Acquire.Withdraw.{save-ok}

head-any :
    (t : String) (l : List Entry) → is_head t l ≡ true → any (λ row. str_eq row.ticket t) l ≡ true
head-any t [] h = cc
head-any t (x ∷ l) h = ground arith

-- The ticket file is gone, or is the one that the request made.
abbrev pub IsOwnFile : Entry → Option TicketFile → Type 0
IsOwnFile item none = Unit
IsOwnFile item (some f) = same_inode f.stat.identity item.inode ≡ true

unlink_own :
    (item : Entry) (ns : Namespace) (f : Option TicketFile)
    → find_ticket item.ticket ns.tickets ≡ f
    → IsOwnFile item f
    → ((unlink_ticket item ns).0 ≡ ok tt) × ((unlink_ticket item ns).1.state ≡ ns.state)
unfolding unlink_ticket
unlink_own item ns none e h = ground arith
unlink_own item ns (some f) e h = ground arith

-- The queued request at the head of the order is granted the accelerator, and its record is saved,
-- when no descriptor holds the lock, no grant is held, the namespace is anchored, its record
-- acceptable, the new record within the size bound, and no `state.next` is left over.
pub serve-granted :
    (env : Env) (owner i : ℕ) (item : Entry) (s : Session)
    → is_valid s.space.state ≡ true
    → get_elem? s.space.state.queue i ≡ some item
    → is_head item.ticket (order s.space.state) ≡ true
    → s.space.guards ≡ 0
    → is_held s.space.state.active ≡ false
    → s.space.anchored ≡ true
    → s.space.stale ≡ none
    → IsOwnFile item (find_ticket item.ticket s.space.tickets)
    → leb (env.record_size (granted_state item held s.space.state)) max_bytes ≡ true
    → ((serve env owner item s).0 ≡ ok (granted (new_lease owner item)))
      × ((serve env owner item s).1.space.state ≡ granted_state item held s.space.state)
unfolding serve grant
serve-granted env owner i item s valid queued head free over anchored stale own size =
    let value = granted_state item held s.space.state in
    ground (
      arith,
      head-any item.ticket (order s.space.state),
      save-ok env value s.space (granted_state-is_valid s.space.state i item held valid queued) size
          stale,
      unlink_own item (record s.space { state = value }) (find_ticket item.ticket s.space.tickets)
          refl own,
    )

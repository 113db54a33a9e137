-- ===== src/Lease/Release/Handover.antt =====
-- Release, with and without the acknowledgement of cleanup, and the grant that may follow.
use kilix_system_monitor.Prelude.{
  ℕ, ◌-◌, ◌≡◌, refl, ◌⊎◌, Bool, true, false, none, some, arith, leb, get_elem?,
}
use kilix_system_monitor.Lease.Entry.{Entry, State, held}
use kilix_system_monitor.Lease.Schema.{is_valid, is_grant}
use kilix_system_monitor.Lease.Schema.Valid.{is_valid-Valid, Valid-is_valid}
use kilix_system_monitor.Lease.Order.{order}
use kilix_system_monitor.Lease.Exec.{Result, ok}
use kilix_system_monitor.Lease.Namespace.{Namespace, Env, open_registry, max_bytes, find_ticket}
use kilix_system_monitor.Lease.Namespace.Frame.{save_cases}
use kilix_system_monitor.Lease.Acquire.{
  Lease, granted, is_held, granted_state, new_lease, is_head, serve,
}
use kilix_system_monitor.Lease.Acquire.Withdraw.{save-ok}
use kilix_system_monitor.Lease.Acquire.Turn.{IsOwnFile, serve-granted}
use kilix_system_monitor.Lease.Release.{
  Situation, Descriptor, close_after, owned, own, releasing_state, release,
}

releasing_state-is_valid : (s : State) → is_valid s ≡ true → is_valid (releasing_state s) ≡ true
unfolding is_grant
releasing_state-is_valid s h =
    let v = is_valid-Valid s h in
    Valid-is_valid _ (record {
      version_ok = v.version_ok;
      next_ok = v.next_ok;
      length_ok = v.length_ok;
      active_ok = ground (arith, v.active_ok);
      entries_ok = v.entries_ok;
      tickets_ok = v.tickets_ok;
      sequences_ok = v.sequences_ok;
      below_next = v.below_next;
      not_again = ground (arith, v.not_again);
      tts_ok = v.tts_ok;
      stt_ok = v.stt_ok;
      llm_ok = v.llm_ok;
    })

-- The record of an acknowledged grant is over, and orders the queue as before.
order-releasing : (s : State) → order (releasing_state s) ≡ order s
unfolding order
order-releasing s = refl

released-over : (s : State) → is_held (releasing_state s).active ≡ false
released-over s = ground arith

close_after-state :
    (fd : Descriptor) (lease : Lease) (r : Result (Unit {0})) (ns : Namespace)
    → (close_after fd lease (r, ns)).2.state ≡ ns.state
close_after-state fd lease r ns = ground arith

module _ (env : Env) (sit : Situation) (lease : Lease) (ns : Namespace)
    (mine : owned sit.pid sit.fd lease ns.state ≡ true) (reached : sit.waited_out ≡ false)
    (anchored : ns.anchored ≡ true) (valid : is_valid ns.state ≡ true) (stale : ns.stale ≡ none)
    (size : leb (env.record_size (releasing_state ns.state)) max_bytes ≡ true) where
  -- The owner's acknowledged release succeeds: the grant is saved as releasing, the lease is closed
  -- and this process's copy of the guard is gone.
  pub release-acknowledged : release env sit true lease ns ≡ (
    ok tt,
    record lease { is_open = false },
    record ns { state = releasing_state ns.state; guards = ns.guards - 1 },
  )
  unfolding release owned open_registry
  release-acknowledged = ground (
    arith,
    save-ok env (releasing_state ns.state) ns (releasing_state-is_valid ns.state valid) size stale,
  )

-- `release` changes the saved record only for the owner of the held grant and only with an explicit
-- acknowledgement of cleanup, and then by marking the grant as releasing.
pub release-state :
    (env : Env) (sit : Situation) (complete : Bool) (lease : Lease) (ns : Namespace)
    → ((release env sit complete lease ns).2.state ≡ ns.state)
      ⊎ ((complete ≡ true)
          × (owned sit.pid sit.fd lease ns.state ≡ true)
          × ((release env sit complete lease ns).2.state ≡ releasing_state ns.state))
unfolding release open_registry
release-state env sit complete lease ns =
    ground (arith, save_cases env (releasing_state ns.state) ns, close_after-state sit.fd lease)

-- After the owner acknowledges cleanup, with no other copy of the guard open, the request at the
-- head of the order is granted the accelerator in its next turn: the namespace is anchored with an
-- acceptable record and no left-over `state.next`, and both records are within the size bound.
pub handover :
    (env : Env) (sit : Situation) (lease : Lease) (ns : Namespace) (owner i : ℕ) (item : Entry)
    → owned sit.pid sit.fd lease ns.state ≡ true
    → sit.waited_out ≡ false
    → ns.anchored ≡ true
    → is_valid ns.state ≡ true
    → ns.stale ≡ none
    → leb (env.record_size (releasing_state ns.state)) max_bytes ≡ true
    → ns.guards ≡ 1
    → get_elem? ns.state.queue i ≡ some item
    → is_head item.ticket (order ns.state) ≡ true
    → IsOwnFile item (find_ticket item.ticket ns.tickets)
    → leb (env.record_size (granted_state item held (releasing_state ns.state))) max_bytes ≡ true
    → (serve env owner item
        (record { space = (release env sit true lease ns).2; item = some item })).0
      ≡ ok (granted (new_lease owner item))
handover env sit lease ns owner i item mine reached anchored valid stale size one queued head own
      fits =
    rw (release-acknowledged env sit lease ns mine reached anchored valid stale size)
      (serve-granted env owner i item _ (releasing_state-is_valid ns.state valid) queued
        (rw order-releasing head) (omega (arith, one)) (released-over ns.state) anchored stale own
        fits).0

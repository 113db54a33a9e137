-- ===== src/Lease/Tests/Turns.antt =====
-- Turns of requests, pruning and withdrawal at concrete namespaces.
use kilix_system_monitor.Prelude.{◌≡◌, refl, inl, true, false, some, keep, arith}
use kilix_system_monitor.Lease.Entry.{llm_turn, Entry, State, held}
use kilix_system_monitor.Lease.Exec.{ok}
use kilix_system_monitor.Lease.Namespace.{
  find_ticket, is_trusted, save, unlink_ticket, open_registry,
}
use kilix_system_monitor.Lease.Order.{order, rounds, following, sort_sequence}
use kilix_system_monitor.Lease.Schema.{is_valid, is_token, is_label, is_entry, is_grant}
use kilix_system_monitor.Lease.Prune.{prune, scan, same_entry, same_queue, unlink_all, sweep_files}
use kilix_system_monitor.Lease.Prune.Queue.{is_live, prune-queue}
use kilix_system_monitor.Lease.Acquire.{
  Session, leased, granted, granted_state, new_lease, without, find_entry, enqueued, enqueue, grant,
  serve, acquire_pass, withdraw, iterate, check_request,
}
use kilix_system_monitor.Lease.Acquire.Exclusive.{OutcomeEffect, iterate-Effect}
use kilix_system_monitor.Lease.Acquire.Saved.{enqueued-is_valid}
use kilix_system_monitor.Lease.Acquire.Turn.{serve-granted}
use kilix_system_monitor.Lease.Acquire.Withdraw.{withdraw-queue}
use kilix_system_monitor.Lease.Tests.Data.{
  ticket_c, entry_of, env_at, answers, request, space_of, idle_state, busy_state,
}

abbrev first_in_line : Entry
first_in_line = entry_of ticket_c llm_turn 3

abbrev session_of : State → Session
session_of s = record { space = space_of s 0; item = some first_in_line }

iterate-Effect_example :
    OutcomeEffect
      (iterate (env_at 100) answers 5 request (session_of idle_state)).0
      (space_of idle_state 0)
      (iterate (env_at 100) answers 5 request (session_of idle_state)).1.space
iterate-Effect_example = iterate-Effect (env_at 100) answers 5 request (session_of idle_state)

-- The head of the order is granted in that iteration.
iterate_run :
    (iterate (env_at 100) answers 5 request (session_of idle_state)).0
    ≡ leased (new_lease 5 first_in_line)
unfolding iterate check_request acquire_pass prune scan find_ticket is_trusted same_queue same_entry
    unlink_all sweep_files is_valid is_token is_label is_entry is_grant order rounds following
    sort_sequence serve grant save unlink_ticket open_registry enqueue
iterate_run = refl

enqueued-is_valid_example : is_valid (enqueued (env_at 100) request busy_state) ≡ true
unfolding is_valid is_token is_label is_entry is_grant
enqueued-is_valid_example =
    enqueued-is_valid (env_at 100) request busy_state refl refl refl refl refl (omega arith) refl
      refl

prune-queue_example : (prune (env_at 100) (space_of busy_state 1)).1.state ≡ record busy_state {
  queue = keep (is_live (env_at 100) (space_of busy_state 1).tickets) busy_state.queue;
}
unfolding prune scan find_ticket is_trusted same_queue same_entry unlink_all sweep_files is_token
prune-queue_example = prune-queue (env_at 100) (space_of busy_state 1) refl

withdraw-queue_example :
    (withdraw (env_at 100) false (some first_in_line) (space_of busy_state 1)).state
    ≡ record busy_state { queue = without ticket_c busy_state.queue }
unfolding is_valid is_token is_label is_entry is_grant find_entry
withdraw-queue_example =
    withdraw-queue (env_at 100) first_in_line (space_of busy_state 1) refl refl (inl refl) refl refl

serve-granted_example :
    ((serve (env_at 100) 5 first_in_line (session_of idle_state)).0
      ≡ ok (granted (new_lease 5 first_in_line)))
    × ((serve (env_at 100) 5 first_in_line (session_of idle_state)).1.space.state
        ≡ granted_state first_in_line held idle_state)
unfolding is_valid is_token is_label is_entry is_grant order rounds following sort_sequence
    find_ticket
serve-granted_example =
    serve-granted (env_at 100) 5 2 first_in_line (session_of idle_state) refl refl refl refl refl
      refl refl refl refl

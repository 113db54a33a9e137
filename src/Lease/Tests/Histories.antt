-- ===== src/Lease/Tests/Histories.antt =====
-- Releases and histories of the shared namespace.
use kilix_system_monitor.Prelude.{◌≡◌, refl, ◌⊎◌, Bool, true, some, [], ◌∷◌}
use kilix_system_monitor.Lease.Entry.{llm_turn}
use kilix_system_monitor.Lease.Exec.{ok}
use kilix_system_monitor.Lease.Namespace.{find_ticket}
use kilix_system_monitor.Lease.Order.{order, rounds, following, sort_sequence}
use kilix_system_monitor.Lease.Schema.{is_valid, is_token, is_label, is_entry, is_grant}
use kilix_system_monitor.Lease.Acquire.{granted, new_lease, serve, iterate}
use kilix_system_monitor.Lease.Release.{owned, releasing_state, release}
use kilix_system_monitor.Lease.Release.Handover.{release-state, handover}
use kilix_system_monitor.Lease.System.{
  System, Reach, here, next, attempt, after_attempt, open_count, closed_lease,
}
use kilix_system_monitor.Lease.System.Invariant.{Exclusive, reach-Exclusive}
use kilix_system_monitor.Lease.System.Quarantine.{reach-Quarantined}
use kilix_system_monitor.Lease.Tests.Data.{
  ticket_c, entry_of, env_at, space_of, busy_state, idle_state, grant_d, lease_d, situation,
  answers, request,
}

release-state_example :
    ((release (env_at 100) situation true lease_d (space_of busy_state 1)).2.state ≡ busy_state)
    ⊎ (◌≡◌ {A = Bool} true true
        × (owned 77 situation.fd lease_d busy_state ≡ true)
        × ((release (env_at 100) situation true lease_d (space_of busy_state 1)).2.state
            ≡ releasing_state busy_state))
release-state_example = release-state (env_at 100) situation true lease_d (space_of busy_state 1)

handover_example :
    (serve (env_at 100) 5 (entry_of ticket_c llm_turn 3) (record {
      space = (release (env_at 100) situation true lease_d (space_of busy_state 1)).2;
      item = some (entry_of ticket_c llm_turn 3);
    })).0
    ≡ ok (granted (new_lease 5 (entry_of ticket_c llm_turn 3)))
unfolding is_valid is_token is_label is_entry is_grant order rounds following sort_sequence
    find_ticket owned
handover_example =
    handover (env_at 100) situation lease_d (space_of busy_state 1) 5 2
      (entry_of ticket_c llm_turn 3) refl refl refl refl refl refl refl refl refl refl refl

-- The grant is held and its holder is gone: a request runs an iteration.
abbrev deserted : System
deserted = record { space = space_of busy_state 0; leases = closed_lease lease_d ∷ [] }

abbrev free : System
free = record { space = space_of idle_state 0; leases = [] }

abbrev tried : System → System
tried s = after_attempt s (
    iterate (env_at 100) answers 5 request
      (record { space = s.space; item = some (entry_of ticket_c llm_turn 3) }))

abbrev one_try : (s : System) → Reach s (tried s)
one_try s =
    next here (attempt (env_at 100) answers 5 request (some (entry_of ticket_c llm_turn 3)) refl)

reach-Exclusive_example : Exclusive (tried free)
reach-Exclusive_example = reach-Exclusive {s = free} refl (one_try free)

reach-Quarantined_example :
    ((tried deserted).space.state.active ≡ some grant_d) × (open_count (tried deserted).leases ≡ 0)
reach-Quarantined_example =
    reach-Quarantined {s = deserted} grant_d refl refl refl (one_try deserted)

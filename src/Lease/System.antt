-- ===== src/Lease/System.antt =====
-- The namespace shared by every requester and holder: requests run their iterations, leases are
-- released, processes fork and die, and files change from outside, in any order.
mod Counts
pub mod Invariant
pub mod Quarantine
use kilix_system_monitor.Prelude.{
  ℕ, suc, ◌+◌, ◌-◌, ◌<◌, ◌≡◌, Bool, true, false, Option, none, some, List, [], ◌∷◌, ◌++◌,
  if◌then◌else◌,
}
use kilix_system_monitor.Lease.Entry.{Entry}
use kilix_system_monitor.Lease.Namespace.{FileStat, TicketFile, Namespace, Env}
use kilix_system_monitor.Lease.Acquire.{
  Request, Answers, Lease, Outcome, leased, refused, waits, Session, iterate,
}
use kilix_system_monitor.Lease.Release.{Situation, release}

-- Every lease that was returned, open or not.
pub record System : Type 0 where
  pub space : Namespace
  pub leases : List Lease

abbrev add_lease : Outcome → List Lease → List Lease
add_lease (leased lease) leases = lease ∷ leases
add_lease (refused c) leases = leases
add_lease (waits n) leases = leases

abbrev pub after_attempt : System → Outcome × Session → System
after_attempt s out = record { space = out.1.space; leases = add_lease out.0 s.leases }

abbrev pub closed_lease : Lease → Lease
closed_lease lease = record lease { is_open = false }

abbrev pub with_guards : ℕ → Namespace → Namespace
with_guards n ns = record ns { guards = n }

-- The leases whose process has its guard open.
abbrev pub open_count : List Lease → ℕ
open_count [] = 0
open_count (lease ∷ leases) = if lease.is_open then suc (open_count leases) else open_count leases

pub data Step (s t : System) : Type 0 where
  -- a request, queued or not, runs one iteration of `_acquire`
  attempt :
      (env : Env) (answers : Answers) (owner : ℕ) (req : Request) (item : Option Entry)
      → t
        ≡ after_attempt s (iterate env answers owner req (record { space = s.space; item = item }))
      → Step s t
  -- `Lease.release` of one lease
  give_back :
      (env : Env) (sit : Situation) (cleanup_complete : Bool) (before after : List Lease)
      (lease : Lease)
      → s.leases ≡ before ++ lease ∷ after
      → t.space ≡ (release env sit cleanup_complete lease s.space).2
      → t.leases ≡ before ++ (release env sit cleanup_complete lease s.space).1 ∷ after
      → Step s t
  -- the process of an open lease dies, which closes its guard
  holder_dies :
      (before after : List Lease) (lease : Lease)
      → s.leases ≡ before ++ lease ∷ after
      → lease.is_open ≡ true
      → t.space ≡ with_guards (s.space.guards - 1) s.space
      → t.leases ≡ before ++ closed_lease lease ∷ after
      → Step s t
  -- a supervisor or an engine inherits a copy of the guard
  inherits :
      0 < s.space.guards
      → t ≡ record s { space = with_guards (s.space.guards + 1) s.space }
      → Step s t
  -- such a copy is closed
  copy_closed :
      open_count s.leases < s.space.guards
      → t ≡ record s { space = with_guards (s.space.guards - 1) s.space }
      → Step s t
  -- requesters die or are replaced: ticket files, other entries and identities change
  files_change :
      (tickets : List TicketFile) (stale : Option FileStat) (foreign : ℕ) (anchored : Bool)
      → t ≡ record s {
        space = record s.space {
          tickets = tickets;
          stale = stale;
          foreign = foreign;
          anchored = anchored;
        };
      }
      → Step s t

pub data Reach (s : System) : System → Type 0 where
  here : Reach s s
  next : {t u : System} → Reach s t → Step t u → Reach s u

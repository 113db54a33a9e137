-- ===== src/Lease/System/Counts.antt =====
-- Counting open leases, and who owns the grant.
use kilix_system_monitor.Prelude.{
  ℕ, ◌+◌, ◌≡◌, Bool, true, false, Option, List, [], ◌∷◌, ◌++◌, arith, All,
}
use kilix_system_monitor.Lease.Entry.{Grant}
use kilix_system_monitor.Lease.Acquire.{Lease, is_held, is_named}
use kilix_system_monitor.Lease.System.{open_count}

abbrev pub one_open : Bool → ℕ
one_open true = 1
one_open false = 0

pub open_count-append :
    (before after : List Lease) (lease : Lease)
    → open_count (before ++ lease ∷ after)
      ≡ one_open lease.is_open + open_count before + open_count after
open_count-append [] after lease = ground arith
open_count-append (l ∷ before) after lease = ground (arith, open_count-append before after lease)

-- An open lease owns the held grant.
abbrev pub Owns : Option Grant → Lease → Type 0
Owns active lease =
    lease.is_open ≡ true → (is_named lease.ticket active ≡ true) × (is_held active ≡ true)

pub Owns-none_open :
    (active : Option Grant) (leases : List Lease) → open_count leases ≡ 0 → All (Owns active) leases
Owns-none_open active [] h = tt
Owns-none_open active (lease ∷ leases) h =
    (λ o. absurd (ground arith), Owns-none_open active leases (ground arith))

-- ===== src/Lease/Release.antt =====
-- `Lease.check` and `Lease.release`: what the holder of a grant does.
pub mod Effect
pub mod Handover
use kilix_system_monitor.Prelude.{
  ℕ, ◌-◌, String, Bool, true, false, not, ◌&&◌, ◌||◌, Option, none, some, ◌==◌, str_eq,
  if◌then◌else◌,
}
use kilix_system_monitor.Lease.Entry.{releasing, Grant, State}
use kilix_system_monitor.Lease.Exec.{
  lost_lease, deadline_passed, Result, ok, err, ◌>>=◌, ◌>>◌, require, Exec,
}
use kilix_system_monitor.Lease.Namespace.{Namespace, Env, save, open_registry}
use kilix_system_monitor.Lease.Acquire.{Lease, Answers, check_request, is_held, is_named}

-- What the guard's number is now: the granted description, another file, or closed from outside.
pub data Descriptor : Type 0 where
  same_file reused closed : Descriptor

abbrev is_same : Descriptor → Bool
is_same same_file = true
is_same reused = false
is_same closed = false

-- `Lease._owned` accepts, in an open registry.
unfoldable pub owned : ℕ → Descriptor → Lease → State → Bool
owned pid fd lease state =
    lease.is_open
    && pid == lease.owner
    && is_named lease.ticket state.active
    && is_held state.active
    && is_same fd

-- What the process and its registry pass meet; `waited_out`: the registry stayed busy up to the
-- deadline of the pass.
pub record Situation : Type 0 where
  pub pid : ℕ
  pub fd : Descriptor
  pub waited_out : Bool

-- `registry = _Registry(...)` and `self._owned(registry)`.
abbrev own : Situation → Lease → Exec Namespace State
own sit lease = do
  state ← open_registry
  require (owned sit.pid sit.fd lease state) lost_lease
  λ ns. (ok state, ns)

abbrev as_check : Result State × Namespace → Result (Unit {0})
as_check (ok state, _) = ok tt
as_check (err c, _) = err c

-- `Lease.check`
unfoldable pub check : Env → Answers → Situation → Lease → Namespace → Result (Unit {0})
check env answers sit lease ns =
    if not lease.is_open || not (sit.pid == lease.owner)
    then err lost_lease
    else (elim (check_request answers env.now lease.deadline) [
      | err c ↦ err c
      | ok _ ↦ if sit.waited_out then err deadline_passed else as_check (own sit lease ns)
    ])

abbrev pub acknowledged : Option Grant → Option Grant
acknowledged none = none
acknowledged (some g) = some (record g { phase = releasing })

-- `registry.value["active"]["state"] = "releasing"`
abbrev pub releasing_state : State → State
releasing_state state = record state { active = acknowledged state.active }

-- The acknowledgement: the grant of the lease is saved as releasing.
abbrev acknowledge : Env → Situation → Lease → Exec Namespace (Unit {0})
acknowledge env sit lease = do state ← own sit lease; save env (releasing_state state)

-- The `finally` clause: this process's copy of the guard is closed.
abbrev close_guard : Descriptor → Result (Unit {0}) → Namespace → Result (Unit {0}) × Namespace
close_guard same_file r ns = (r, record ns { guards = ns.guards - 1 })
close_guard reused r ns = (err lost_lease, ns)
close_guard closed r ns = (err lost_lease, ns)

abbrev close_after :
    Descriptor → Lease → Result (Unit {0}) × Namespace → Result (Unit {0}) × Lease × Namespace
close_after fd lease (r, ns) =
    let (r', ns') = close_guard fd r ns in (r', record lease { is_open = false }, ns')

-- `Lease.release`. A registry that stays busy leaves the guard open, for a later release.
unfoldable pub release :
    Env → Situation → Bool → Lease → Namespace → Result (Unit {0}) × Lease × Namespace
release env sit cleanup_complete lease ns =
    if not lease.is_open
    then (ok tt, lease, ns)
    else if not (sit.pid == lease.owner)
    then (err lost_lease, lease, ns)
    else if cleanup_complete && sit.waited_out
    then (err deadline_passed, lease, ns)
    else close_after sit.fd lease
        (if cleanup_complete then acknowledge env sit lease ns else (ok tt, ns))

-- ===== src/Lease/Release/Effect.antt =====
-- What `release` does to the grant, its lock and the lease.
use kilix_system_monitor.Prelude.{◌-◌, ◌≤◌, ◌≡◌, ◌⊎◌, Bool, true, false, arith}
use kilix_system_monitor.Lease.Exec.{Result}
use kilix_system_monitor.Lease.Namespace.{Namespace, Env, open_registry}
use kilix_system_monitor.Lease.Namespace.Frame.{SameGrant, save_frame}
use kilix_system_monitor.Lease.Acquire.{Lease}
use kilix_system_monitor.Lease.Release.{
  Situation, Descriptor, acknowledge, releasing_state, close_after, release,
}

-- Either nothing changes, or the lease is closed; a lease that was closed already changes nothing.
pub record Released (lease lease' : Lease) (before after : Namespace) : Type 0 where
  pub outcome :
      ((lease' ≡ lease) × SameGrant after before)
      ⊎ ((lease'.is_open ≡ false) × (lease.is_open ≡ true) × (before.guards - 1 ≤ after.guards))

acknowledge_guards :
    (env : Env) (sit : Situation) (lease : Lease) (ns : Namespace)
    → (acknowledge env sit lease ns).1.guards ≡ ns.guards
unfolding open_registry
acknowledge_guards env sit lease ns = ground (arith, save_frame env (releasing_state ns.state) ns)

close_after-Released :
    (lease : Lease) (before : Namespace) (fd : Descriptor) (r : Result (Unit {0})) (ns : Namespace)
    → lease.is_open ≡ true
    → ns.guards ≡ before.guards
    → Released lease (close_after fd lease (r, ns)).1 before (close_after fd lease (r, ns)).2
close_after-Released lease before fd r ns o g = ground arith

pub release-Released :
    (env : Env) (sit : Situation) (complete : Bool) (lease : Lease) (ns : Namespace)
    → Released lease (release env sit complete lease ns).1 ns (release env sit complete lease ns).2
unfolding release
release-Released env sit complete lease ns = ground (
  arith,
  acknowledge_guards env sit lease ns,
  close_after-Released lease ns sit.fd (acknowledge env sit lease ns).0
      (acknowledge env sit lease ns).1,
)

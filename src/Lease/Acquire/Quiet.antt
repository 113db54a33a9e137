-- ===== src/Lease/Acquire/Quiet.antt =====
-- Queueing and withdrawing leave the grant and its lock alone.
use kilix_system_monitor.Prelude.{refl, Bool, Option, none, some, arith}
use kilix_system_monitor.Lease.Entry.{Entry}
use kilix_system_monitor.Lease.Namespace.{Namespace, Env, save, unlink_ticket, open_registry}
use kilix_system_monitor.Lease.Namespace.Frame.{
  SameGrant, IsQuiet, IsQuiet-bind, IsQuiet-unlink, save-SameGrant,
}
use kilix_system_monitor.Lease.Acquire.{
  Request, Session, enqueued, enqueue, without, withdraw_found, remove_entry, withdraw_open,
  with_ticket, withdraw,
}

pub IsQuiet-open : IsQuiet open_registry
unfolding open_registry
IsQuiet-open = record { at = λ ns. ground arith }

pub enqueue-SameGrant :
    (env : Env) (req : Request) (s : Session) → SameGrant (enqueue env req s).1.space s.space
unfolding enqueue
enqueue-SameGrant env req s =
    ground (arith, save-SameGrant env (enqueued env req s.space.state) (with_ticket env s.space))

IsQuiet-remove_entry : (env : Env) (item : Entry) → IsQuiet (remove_entry env item)
IsQuiet-remove_entry env item =
    IsQuiet-bind
      (λ ns. save env (record ns.state { queue = without item.ticket ns.state.queue }) ns)
      (λ _. unlink_ticket item) (record { at = λ ns. save-SameGrant env _ ns refl })
      (λ _. IsQuiet-unlink item)

IsQuiet-withdraw_found :
    (env : Env) (item : Entry) (found : Option Entry) → IsQuiet (withdraw_found env item found)
IsQuiet-withdraw_found env item none = record { at = λ ns. ground arith }
IsQuiet-withdraw_found env item (some row) = record {
  at = λ ns. ground (arith, (IsQuiet-remove_entry env item).at ns);
}

IsQuiet-withdraw_open : (env : Env) (item : Entry) → IsQuiet (withdraw_open env item)
IsQuiet-withdraw_open env item =
    IsQuiet-bind open_registry _ IsQuiet-open (λ state. IsQuiet-withdraw_found env item _)

pub withdraw-SameGrant :
    (env : Env) (busy : Bool) (item : Option Entry) (ns : Namespace)
    → SameGrant (withdraw env busy item ns) ns
unfolding withdraw
withdraw-SameGrant env busy none ns = ground arith
withdraw-SameGrant env busy (some item) ns = ground (arith, (IsQuiet-withdraw_open env item).at ns)

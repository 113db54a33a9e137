-- ===== src/Lease/Namespace/Frame.antt =====
-- What the file operations leave alone.
use kilix_system_monitor.Prelude.{◌≡◌, ◌⊎◌, true, arith}
use kilix_system_monitor.Lease.Entry.{Entry, State}
use kilix_system_monitor.Lease.Schema.{is_valid}
use kilix_system_monitor.Lease.Exec.{Result, ok, err, unavailable, Exec, continue_with, ◌>>=◌}
use kilix_system_monitor.Lease.Namespace.{Namespace, Env, save, unlink_ticket}

module _ (env : Env) (value : State) (ns : Namespace) where
  -- Saved, or refused with the record as it was; a saved record was accepted by `_state`.
  pub save_cases :
      (((save env value ns).0 ≡ ok tt)
        × ((save env value ns).1.state ≡ value)
        × (is_valid value ≡ true))
      ⊎ (((save env value ns).0 ≡ err unavailable) × ((save env value ns).1.state ≡ ns.state))
  unfolding save
  save_cases = ground arith

  pub save_frame :
      ((save env value ns).1.guards ≡ ns.guards)
      × ((save env value ns).1.tickets ≡ ns.tickets)
      × ((save env value ns).1.anchored ≡ ns.anchored)
      × ((save env value ns).1.foreign ≡ ns.foreign)
  unfolding save
  save_frame = ground arith

-- Nothing but the ticket files is touched.
pub unlink_frame :
    (item : Entry) (ns : Namespace)
    → ((unlink_ticket item ns).1.guards ≡ ns.guards)
      × ((unlink_ticket item ns).1.state ≡ ns.state)
      × ((unlink_ticket item ns).1.anchored ≡ ns.anchored)
unfolding unlink_ticket
unlink_frame item ns = ground arith

-- The grant and its lock are as before.
pub record SameGrant (a b : Namespace) : Type 0 where
  pub same_guards : a.guards ≡ b.guards
  pub same_active : a.state.active ≡ b.state.active

pub SameGrant-trans : {a b c : Namespace} → SameGrant a b → SameGrant b c → SameGrant a c
SameGrant-trans h k = ground arith

-- An operation that leaves the grant alone, whether it raises or not.
pub record IsQuiet {A : Type 0} (m : Exec Namespace A) : Type 0 where
  pub at : (ns : Namespace) → SameGrant (m ns).1 ns

continue_with-quiet :
    {A B : Type 0} (f : A → Exec Namespace B) (r : Result A) (ns ns' : Namespace)
    → ((a : A) → IsQuiet (f a))
    → SameGrant ns' ns
    → SameGrant (continue_with f (r, ns')).1 ns
continue_with-quiet f (ok a) ns ns' q h = SameGrant-trans ((q a).at ns') h
continue_with-quiet f (err c) ns ns' q h = h

pub IsQuiet-bind :
    {A B : Type 0} (m : Exec Namespace A) (f : A → Exec Namespace B)
    → IsQuiet m
    → ((a : A) → IsQuiet (f a))
    → IsQuiet (m >>= f)
IsQuiet-bind m f qm qf = record {
  at = λ ns. continue_with-quiet f (m ns).0 ns (m ns).1 qf (qm.at ns);
}

pub IsQuiet-unlink : (item : Entry) → IsQuiet (unlink_ticket item)
IsQuiet-unlink item = record { at = λ ns. ground (arith, unlink_frame item ns) }

-- A record with the same grant is saved, or not.
pub save-SameGrant :
    (env : Env) (value : State) (ns : Namespace)
    → value.active ≡ ns.state.active
    → SameGrant (save env value ns).1 ns
save-SameGrant env value ns h = ground (arith, save_frame env value ns, save_cases env value ns)

-- ===== src/Lease/System/Invariant.antt =====
-- Exclusive execution: in every history at most one lease is open, and it owns the held grant.
use kilix_system_monitor.Prelude.{
  ◌-◌, ◌≤◌, ◌≡◌, refl, sym, ap, subst, ◌∙◌, ◌⊎◌, inl, inr, true, false, List, ◌∷◌, ◌++◌, arith, All,
}
use kilix_system_monitor.Lease.Namespace.{Namespace}
use kilix_system_monitor.Lease.Namespace.Frame.{SameGrant}
use kilix_system_monitor.Lease.Acquire.{
  Lease, Outcome, leased, refused, waits, Session, is_held, iterate,
}
use kilix_system_monitor.Lease.Acquire.Exclusive.{Kept, OutcomeEffect, iterate-Effect}
use kilix_system_monitor.Lease.Release.Effect.{Released, release-Released}
use kilix_system_monitor.Lease.System.{
  System, Step, attempt, give_back, holder_dies, inherits, copy_closed, files_change, Reach, here,
  next, open_count, after_attempt, closed_lease,
}
use kilix_system_monitor.Lease.System.Counts.{one_open, open_count-append, Owns, Owns-none_open}

-- At most one lease is open, each open guard is counted by the lock, and an open lease owns the
-- grant that is held.
pub record Exclusive (s : System) : Type 0 where
  pub single : open_count s.leases ≤ 1
  pub counted : open_count s.leases ≤ s.space.guards
  pub owning : All (Owns s.space.state.active) s.leases

-- With no lease open, nothing needs to own the grant.
none_open-Exclusive : (s : System) → open_count s.leases ≡ 0 → Exclusive s
none_open-Exclusive s h = record {
  single = omega arith;
  counted = omega arith;
  owning = Owns-none_open s.space.state.active s.leases h;
}

Kept-Exclusive :
    (s : System) (ns : Namespace)
    → Kept s.space ns
    → Exclusive s
    → Exclusive (record s { space = ns })
Kept-Exclusive s ns k v = by_grant k.same_active
  where
    by_grant :
        (ns.state.active ≡ s.space.state.active)
          ⊎ ((s.space.guards ≡ 0) × (is_held s.space.state.active ≡ false))
        → Exclusive (record s { space = ns })
    by_grant (inl same) = record {
      single = v.single;
      counted = omega (arith, v.counted, k.same_guards);
      owning = subst (λ a. All (Owns a) s.leases) (sym same) v.owning;
    }
    by_grant (inr (free, over)) = none_open-Exclusive _ (omega (arith, v.counted))

attempt-Exclusive :
    (s : System) (out : Outcome × Session)
    → OutcomeEffect out.0 s.space out.1.space
    → Exclusive s
    → Exclusive (after_attempt s out)
attempt-Exclusive s (leased lease, session) e v =
    let none_open : open_count s.leases ≡ 0 = omega (arith, v.counted, e.was_free) in
    record {
      single = ground arith;
      counted = ground arith;
      owning = (λ o. (e.is_its_own, e.is_now_held), Owns-none_open _ s.leases none_open);
    }
attempt-Exclusive s (refused c, session) e v = Kept-Exclusive s session.space e v
attempt-Exclusive s (waits n, session) e v = Kept-Exclusive s session.space e v

-- An open lease is closed: then no lease is open.
close-Exclusive :
    (s t : System) (before after : List Lease) (lease lease' : Lease)
    → s.leases ≡ before ++ lease ∷ after
    → t.leases ≡ before ++ lease' ∷ after
    → lease.is_open ≡ true
    → lease'.is_open ≡ false
    → Exclusive s
    → Exclusive t
close-Exclusive s t before after lease lease' p q o c v = none_open-Exclusive t (
    omega (
      arith,
      ap open_count p,
      ap open_count q,
      open_count-append before after lease,
      open_count-append before after lease',
      ap one_open o,
      ap one_open c,
      v.single,
    ))

release-Exclusive :
    (s t : System) (before after : List Lease) (lease lease' : Lease)
    → s.leases ≡ before ++ lease ∷ after
    → t.leases ≡ before ++ lease' ∷ after
    → Released lease lease' s.space t.space
    → Exclusive s
    → Exclusive t
release-Exclusive s t before after lease lease' p q r v = by_outcome r.outcome
  where
    by_outcome :
        ((lease' ≡ lease) × SameGrant t.space s.space)
          ⊎ ((lease'.is_open ≡ false)
              × (lease.is_open ≡ true)
              × (s.space.guards - 1 ≤ t.space.guards))
        → Exclusive t
    by_outcome (inl (same, g)) =
        let leases : t.leases ≡ s.leases = q ∙ ap (λ l. before ++ l ∷ after) same ∙ sym p in
        record {
          single = rw leases v.single;
          counted = rw leases (omega (arith, v.counted, g.same_guards));
          owning = rw (leases, g.same_active) v.owning;
        }
    by_outcome (inr (c, o, _)) = close-Exclusive s t before after lease lease' p q o c v

pub Step-Exclusive : {s t : System} → Step s t → Exclusive s → Exclusive t
Step-Exclusive {s} {t} (attempt env answers owner req item e) v =
    let session : Session = record { space = s.space; item = item } in
    rw e (
      attempt-Exclusive s (iterate env answers owner req session)
        (iterate-Effect env answers owner req session) v)
Step-Exclusive {s} {t} (give_back env sit complete before after lease p q r) v =
    release-Exclusive s t before after lease _ p r
      (rw q (release-Released env sit complete lease s.space)) v
Step-Exclusive {s} {t} (holder_dies before after lease p o q r) v =
    close-Exclusive s t before after lease (closed_lease lease) p r o refl v
Step-Exclusive {s} {t} (inherits h e) v =
    rw e (record { single = v.single; counted = omega (arith, v.counted); owning = v.owning })
Step-Exclusive {s} {t} (copy_closed h e) v =
    rw e (record { single = v.single; counted = omega (arith, h); owning = v.owning })
Step-Exclusive {s} {t} (files_change tickets stale foreign anchored e) v =
    rw e (record { single = v.single; counted = v.counted; owning = v.owning })

-- From any namespace with no open lease, after any history of attempts, releases, deaths, forks and
-- changes of files, at most one lease is open, an open lease's guard keeps the lock taken, and
-- the saved grant is held under its ticket.
pub reach-Exclusive : {s t : System} → open_count s.leases ≡ 0 → Reach s t → Exclusive t
reach-Exclusive {s} h here = none_open-Exclusive s h
reach-Exclusive h (next r st) = Step-Exclusive st (reach-Exclusive h r)

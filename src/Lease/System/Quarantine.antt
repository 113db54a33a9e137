-- ===== src/Lease/System/Quarantine.antt =====
-- Quarantine: a held grant that nobody has open any more is never overtaken.
use kilix_system_monitor.Prelude.{
  ◌-◌, ◌≤◌, ◌≡◌, sym, ap, ◌∙◌, ◌⊎◌, inl, inr, true, false, some, List, ◌∷◌, ◌++◌, arith,
}
use kilix_system_monitor.Lease.Entry.{Grant, held}
use kilix_system_monitor.Lease.Namespace.{Namespace}
use kilix_system_monitor.Lease.Namespace.Frame.{SameGrant}
use kilix_system_monitor.Lease.Acquire.{Lease, Outcome, leased, refused, waits, Session, iterate}
use kilix_system_monitor.Lease.Acquire.Exclusive.{Kept, OutcomeEffect, iterate-Effect}
use kilix_system_monitor.Lease.Release.Effect.{Released, release-Released}
use kilix_system_monitor.Lease.System.{
  System, Step, attempt, give_back, holder_dies, inherits, copy_closed, files_change, Reach, here,
  next, open_count, after_attempt,
}
use kilix_system_monitor.Lease.System.Counts.{one_open, open_count-append}

-- The grant `g` is held, and no lease is open.
pub record Quarantined (g : Grant) (s : System) : Type 0 where
  pub grant_stays : s.space.state.active ≡ some g
  pub nobody : open_count s.leases ≡ 0

module _ (g : Grant) (h : g.phase ≡ held) where
  Kept-Quarantined :
      (s : System) (ns : Namespace)
      → Kept s.space ns
      → Quarantined g s
      → Quarantined g (record s { space = ns })
  Kept-Quarantined s ns k v = record { grant_stays = ground arith; nobody = v.nobody }

  attempt-Quarantined :
      (s : System) (out : Outcome × Session)
      → OutcomeEffect out.0 s.space out.1.space
      → Quarantined g s
      → Quarantined g (after_attempt s out)
  attempt-Quarantined s (leased lease, session) e v = absurd (ground arith)
  attempt-Quarantined s (refused c, session) e v = Kept-Quarantined s session.space e v
  attempt-Quarantined s (waits n, session) e v = Kept-Quarantined s session.space e v

  -- A lease among those is closed.
  is_closed :
      (s : System) (before after : List Lease) (lease : Lease)
      → s.leases ≡ before ++ lease ∷ after
      → Quarantined g s
      → lease.is_open ≡ true
      → ⊥
  is_closed s before after lease p v o =
      omega (arith, ap open_count p, open_count-append before after lease, ap one_open o, v.nobody)

  release-Quarantined :
      (s t : System) (before after : List Lease) (lease lease' : Lease)
      → s.leases ≡ before ++ lease ∷ after
      → t.leases ≡ before ++ lease' ∷ after
      → Released lease lease' s.space t.space
      → Quarantined g s
      → Quarantined g t
  release-Quarantined s t before after lease lease' p q r v = by_outcome r.outcome
    where
      by_outcome :
          ((lease' ≡ lease) × SameGrant t.space s.space)
            ⊎ ((lease'.is_open ≡ false)
                × (lease.is_open ≡ true)
                × (s.space.guards - 1 ≤ t.space.guards))
          → Quarantined g t
      by_outcome (inl (same, k)) = record {
        grant_stays = k.same_active ∙ v.grant_stays;
        nobody = ap open_count (q ∙ ap (λ l. before ++ l ∷ after) same ∙ sym p) ∙ v.nobody;
      }
      by_outcome (inr (_, o, _)) = absurd (is_closed s before after lease p v o)

  pub Step-Quarantined : {s t : System} → Step s t → Quarantined g s → Quarantined g t
  Step-Quarantined {s} {t} (attempt env answers owner req item e) v =
      let session : Session = record { space = s.space; item = item } in
      rw e (
        attempt-Quarantined s (iterate env answers owner req session)
          (iterate-Effect env answers owner req session) v)
  Step-Quarantined {s} {t} (give_back env sit complete before after lease p q r) v =
      release-Quarantined s t before after lease _ p r
        (rw q (release-Released env sit complete lease s.space)) v
  Step-Quarantined {s} {t} (holder_dies before after lease p o q r) v =
      absurd (is_closed s before after lease p v o)
  Step-Quarantined {s} {t} (inherits lt e) v =
      rw e (record { grant_stays = v.grant_stays; nobody = v.nobody })
  Step-Quarantined {s} {t} (copy_closed lt e) v =
      rw e (record { grant_stays = v.grant_stays; nobody = v.nobody })
  Step-Quarantined {s} {t} (files_change tickets stale foreign anchored e) v =
      rw e (record { grant_stays = v.grant_stays; nobody = v.nobody })

-- Once a grant is held and no lease is open, because its holder died or released without
-- acknowledging cleanup, no history of attempts, releases, deaths, forks and changes of files ever
-- changes the saved grant or opens a lease.
pub reach-Quarantined :
    {s t : System} (g : Grant)
    → g.phase ≡ held
    → s.space.state.active ≡ some g
    → open_count s.leases ≡ 0
    → Reach s t
    → (t.space.state.active ≡ some g) × (open_count t.leases ≡ 0)
reach-Quarantined {s} {t} g h a n r = let v = stays r in (v.grant_stays, v.nobody)
  where
    stays : {u : System} → Reach s u → Quarantined g u
    stays here = record { grant_stays = a; nobody = n }
    stays (next r st) = Step-Quarantined g h st (stays r)

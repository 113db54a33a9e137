-- ===== src/Lease/Acquire/Exclusive.antt =====
-- When a turn grants the accelerator, and what it leaves alone otherwise.
use kilix_system_monitor.Prelude.{
  ℕ, ◌≡◌, refl, ◌⊎◌, inl, Bool, true, false, Option, none, some, arith, str_eq, ◌==◌, not, any,
  ◌&&◌, if◌then◌else◌,
}
use text.Mathlib.TextPositions.{eq_refl}
use kilix_system_monitor.Lease.Entry.{Entry, held, releasing, State}
use kilix_system_monitor.Lease.Exec.{
  Code, lost_lease, Result, ok, err, Exec, continue_with, ◌>>=◌, ◌>>◌,
}
use kilix_system_monitor.Lease.Namespace.{Namespace, Env, save, unlink_ticket, open_registry}
use kilix_system_monitor.Lease.Namespace.Frame.{SameGrant, save_cases, save_frame, unlink_frame}
use kilix_system_monitor.Lease.Order.{order}
use kilix_system_monitor.Lease.Prune.{prune}
use kilix_system_monitor.Lease.Prune.Quiet.{IsQuiet-prune}
use kilix_system_monitor.Lease.Acquire.Quiet.{IsQuiet-open, enqueue-SameGrant, withdraw-SameGrant}
use kilix_system_monitor.Lease.Acquire.{
  Request, Answers, Lease, Session, Progress, granted, queued, lost, is_held, is_named,
  granted_state, finish_grant, grant, serve, is_head, serve_item, admit, acquire_pass, in_space,
  refuse_with, conclude, iterate, check_request, Outcome, leased, refused, waits,
}

-- A lease over a free lock: nobody held the grant before, and this lease's ticket does now.
pub record Granted (lease : Lease) (before after : Namespace) : Type 0 where
  pub was_free : before.guards ≡ 0
  pub was_over : is_held before.state.active ≡ false
  pub is_locked : after.guards ≡ 1
  pub is_now_held : is_held after.state.active ≡ true
  pub is_its_own : is_named lease.ticket after.state.active ≡ true
  pub is_open : lease.is_open ≡ true

-- No lease: the locks are as before, and so is the grant, unless it was free and over.
pub record Kept (before after : Namespace) : Type 0 where
  pub same_guards : after.guards ≡ before.guards
  pub same_active :
      (after.state.active ≡ before.state.active)
      ⊎ ((before.guards ≡ 0) × (is_held before.state.active ≡ false))

abbrev pub Effect : Result Progress → Namespace → Namespace → Type 0
Effect (ok (granted lease)) before after = Granted lease before after
Effect (ok (queued n)) before after = Kept before after
Effect (ok lost) before after = Kept before after
Effect (err c) before after = Kept before after

module _ (env : Env) (owner : ℕ) (item : Entry) (before : Namespace) where
  module _ (free : before.guards ≡ 0) (over : is_held before.state.active ≡ false) where
    finish_grant-Effect :
        (r : Result (Unit {0})) (ns : Namespace)
        → ns.guards ≡ before.guards
        → (r ≡ ok tt → ns.state ≡ granted_state item held before.state)
        → Effect
            (finish_grant env owner item before.state (r, ns)).0
            before
            (finish_grant env owner item before.state (r, ns)).1.space
    finish_grant-Effect (err c) ns g h =
        ground (arith, save_frame env (granted_state item releasing before.state) ns)
    finish_grant-Effect (ok tt) ns g h = ground (arith, h refl, eq_refl item.ticket)

-- What saving the grant and unlinking its ticket do.
granting_frame :
    (env : Env) (item : Entry) (value : State) (ns : Namespace)
    → let r = (do save env value; unlink_ticket item) ns in
      (r.1.guards ≡ ns.guards) × (r.0 ≡ ok tt → r.1.state ≡ value)
granting_frame env item value ns = ground (
  arith,
  save_frame env value ns,
  save_cases env value ns,
  unlink_frame item (save env value ns).1,
)

-- The effect of a whole turn, and its rule for a branch.
abbrev HasEffect : Namespace → Result Progress × Session → Type 0
HasEffect before out = Effect out.0 before out.1.space

if-HasEffect :
    (before : Namespace) (b : Bool) (x y : Result Progress × Session)
    → (b ≡ true → HasEffect before x)
    → (b ≡ false → HasEffect before y)
    → HasEffect before (if b then x else y)
if-HasEffect before true x y hx hy = hx refl
if-HasEffect before false x y hx hy = hy refl

grant-Effect :
    (env : Env) (owner : ℕ) (item : Entry) (s : Session)
    → s.space.guards ≡ 0
    → is_held s.space.state.active ≡ false
    → HasEffect s.space (grant env owner item s)
unfolding grant
grant-Effect env owner item s free over =
    let value = granted_state item held s.space.state in
    let (g, h) = granting_frame env item value s.space in
    if-HasEffect s.space s.space.anchored _ _
      (λ _. finish_grant-Effect env owner item s.space free over _ _ g h)
      (λ _. record { same_guards = refl; same_active = inl refl })

free_over :
    (n : ℕ) (b : Bool)
    → (n == 0 && b) ≡ false
    → (c : Bool) → (n == 0 && c) ≡ true
    → (n ≡ 0) × (b ≡ false)
free_over n b h c k = ground arith

pub serve-Effect :
    (env : Env) (owner : ℕ) (item : Entry) (s : Session)
    → HasEffect s.space (serve env owner item s)
unfolding serve
serve-Effect env owner item s =
    if-HasEffect s.space (not (any (λ row. str_eq row.ticket item.ticket) (order s.space.state))) _
      _ (λ _. same)
      (λ _.
        if-HasEffect s.space (s.space.guards == 0 && is_held s.space.state.active) _ _ (λ _. same)
          (λ over.
            if-HasEffect s.space (s.space.guards == 0 && is_head item.ticket (order s.space.state))
              _ _
              (λ head.
                let (free, not_held) = free_over _ _ over _ head in
                grant-Effect env owner item s free not_held)
              (λ _. same)))
  where
    same : Kept s.space s.space
    same = record { same_guards = refl; same_active = inl refl }

Kept-SameGrant : {a b : Namespace} → SameGrant b a → Kept a b
Kept-SameGrant h = ground arith

Effect-SameGrant :
    (r : Result Progress) (a b c : Namespace) → SameGrant b a → Effect r b c → Effect r a c
Effect-SameGrant (ok (granted lease)) a b c h e = ground arith
Effect-SameGrant (ok (queued n)) a b c h e = ground arith
Effect-SameGrant (ok lost) a b c h e = ground arith
Effect-SameGrant (err e') a b c h e = ground arith

-- The last two steps of a turn, after the registry is opened and pruned.
serve_item-Effect :
    (env : Env) (owner : ℕ) (s : Session) → HasEffect s.space (serve_item env owner s)
serve_item-Effect env owner s = by_item s.item
  where
    by_item :
        (o : Option Entry)
        → HasEffect s.space (elim o [ none ↦ (ok lost, s) | some item ↦ serve env owner item s ])
    by_item none = record { same_guards = refl; same_active = inl refl }
    by_item (some item) = serve-Effect env owner item s

after-HasEffect :
    {A : Type 0} (before : Namespace) (f : A → Exec Session Progress) (r : Result A) (s : Session)
    → SameGrant s.space before
    → ((a : A) → HasEffect s.space (f a s))
    → HasEffect before (continue_with f (r, s))
after-HasEffect before f (ok a) s h e = Effect-SameGrant (f a s).0 before s.space _ h (e a)
after-HasEffect before f (err c) s h e = Kept-SameGrant h

admit-SameGrant :
    (env : Env) (req : Request) (s : Session) → SameGrant (admit env req s).1.space s.space
admit-SameGrant env req s = ground (arith, enqueue-SameGrant env req s)

-- The rule for a step that leaves the grant alone.
bind-HasEffect :
    {A : Type 0} (m : Exec Session A) (f : A → Exec Session Progress) (s : Session)
    → SameGrant (m s).1.space s.space
    → ((a : A) (t : Session) → HasEffect t.space (f a t))
    → HasEffect s.space ((m >>= f) s)
bind-HasEffect m f s h e = after-HasEffect s.space f (m s).0 (m s).1 h (λ a. e a (m s).1)

-- A turn of the loop either grants the accelerator, over a free lock and a grant that is over, or
-- leaves the locks alone.
pub pass-Effect :
    (env : Env) (owner : ℕ) (req : Request) (s : Session)
    → HasEffect s.space (acquire_pass env owner req s)
unfolding acquire_pass
pass-Effect env owner req s =
    bind-HasEffect (in_space open_registry) _ s (IsQuiet-open.at s.space) λ _ t.
      bind-HasEffect (in_space (prune env)) _ t ((IsQuiet-prune env).at t.space) λ _ u.
        bind-HasEffect (admit env req) _ u (admit-SameGrant env req u)
          λ _ v. serve_item-Effect env owner v

-- The outcome of a whole iteration: a lease, or nothing of the grant is lost or made up.
abbrev pub OutcomeEffect : Outcome → Namespace → Namespace → Type 0
OutcomeEffect (leased lease) before after = Granted lease before after
OutcomeEffect (refused c) before after = Kept before after
OutcomeEffect (waits n) before after = Kept before after

refuse-Kept :
    (env : Env) (answers : Answers) (c : Code) (before : Namespace) (s : Session)
    → Kept before s.space
    → Kept before (refuse_with env answers c s).1.space
refuse-Kept env answers c before s k =
    ground (arith, withdraw-SameGrant env answers.busy s.item s.space)

conclude-Effect :
    (env : Env) (answers : Answers) (req : Request) (before : Namespace)
    (out : Result Progress × Session)
    → HasEffect before out
    → OutcomeEffect (conclude env answers req out).0 before (conclude env answers req out).1.space
conclude-Effect env answers req before (err c, s) e = refuse-Kept env answers c before s e
conclude-Effect env answers req before (ok (granted lease), s) e = e
conclude-Effect env answers req before (ok (queued n), s) e = e
conclude-Effect env answers req before (ok lost, s) e =
    by_check (check_request answers env.now req.deadline)
  where
    by_check :
        (r : Result (Unit {0}))
        → let out : Outcome × Session = elim r [
          | ok _ ↦ refuse_with env answers lost_lease s
          | err c ↦ refuse_with env answers c s
        ] in
          OutcomeEffect out.0 before out.1.space
    by_check (ok _) = refuse-Kept env answers lost_lease before s e
    by_check (err c) = refuse-Kept env answers c before s e

-- Every iteration of `_acquire` either returns a lease, which happens only when no open descriptor
-- holds the lock and no grant is held, and then the lock is taken once and the saved grant is held
-- under the lease's ticket; or it leaves the descriptors of the lock alone, and the saved grant
-- too, unless the lock was free and that grant was over.
pub iterate-Effect :
    (env : Env) (answers : Answers) (owner : ℕ) (req : Request) (s : Session)
    → OutcomeEffect
        (iterate env answers owner req s).0
        s.space
        (iterate env answers owner req s).1.space
unfolding iterate
iterate-Effect env answers owner req s = by_check (check_request answers env.now req.deadline)
  where
    by_check :
        (r : Result (Unit {0}))
        → let out : Outcome × Session = elim r [
          | err c ↦ refuse_with env answers c s
          | ok _ ↦ conclude env answers req (acquire_pass env owner req s)
        ] in
          OutcomeEffect out.0 s.space out.1.space
    by_check (err c) =
        refuse-Kept env answers c s.space s (record { same_guards = refl; same_active = inl refl })
    by_check (ok _) = conclude-Effect env answers req s.space _ (pass-Effect env owner req s)

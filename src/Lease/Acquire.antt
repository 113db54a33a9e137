-- ===== src/Lease/Acquire.antt =====
-- `_acquire`: one turn of its loop under the registry's lock, and the withdrawal of a request that
-- fails. Times are nanoseconds of the monotonic clock.
pub mod Quiet
pub mod Exclusive
pub mod Saved
pub mod Withdraw
pub mod Turn
use kilix_system_monitor.Prelude.{
  ℕ, suc, ◌+◌, ◌*◌, ◌^◌, String, Bool, true, false, not, ◌&&◌, ◌||◌, Option, none, some, List, [],
  ◌∷◌, ◌++◌, ltb, leb, ◌==◌, str_eq, any, keep, length, if◌then◌else◌,
}
use kilix_system_monitor.Lease.Entry.{
  Workload, max_queue, max_workload_queue, Entry, Phase, held, releasing, Grant, State,
}
use kilix_system_monitor.Lease.Schema.{is_label, count_kind}
use kilix_system_monitor.Lease.Order.{order}
use kilix_system_monitor.Lease.Exec.{
  Code, unavailable, invalid_request, queue_full, lost_lease, deadline_passed, cancelled, Result,
  ok, err, Exec, ◌>>=◌, ◌>>◌,
}
use kilix_system_monitor.Lease.Namespace.{
  TicketFile, Namespace, Env, created_stat, save, unlink_ticket, open_registry,
}
use kilix_system_monitor.Lease.Prune.{same_entry, prune}

pub record Request : Type 0 where
  pub job_id : String
  pub workload : Workload
  pub device : String
  pub deadline : ℕ

-- What the callbacks answer, and whether the registry's lock is taken when the request withdraws.
pub record Answers : Type 0 where
  pub is_cancelled : Bool
  pub is_disconnected : Bool
  pub busy : Bool

pub record Lease : Type 0 where
  pub ticket : String
  pub device : String
  pub workload : Workload
  pub deadline : ℕ
  pub owner : ℕ
  pub is_open : Bool

-- A request while it runs: the namespace, and its entry once it is queued, whose ticket it locks.
pub record Session : Type 0 where
  pub space : Namespace
  pub item : Option Entry

abbrev pub max_wait : ℕ
max_wait = 3600 * 10 ^ 9

-- The first tests of `_acquire`; `canonical` is `os.path.normpath(path) == path` and the like.
unfoldable pub check_arguments : Env → Bool → Request → Result (Unit {0})
check_arguments env canonical req =
    if not (is_label req.job_id)
      || not (is_label req.device)
      || ltb (env.now + max_wait) req.deadline
      || not canonical
    then err invalid_request
    else ok tt

-- `_check_request`
unfoldable pub check_request : Answers → ℕ → ℕ → Result (Unit {0})
check_request answers now deadline =
    if answers.is_cancelled || answers.is_disconnected
    then err cancelled
    else if leb deadline now
    then err deadline_passed
    else ok tt

-- An operation on the namespace, in a session.
abbrev pub in_space : {A : Type 0} → Exec Namespace A → Exec Session A
in_space m s = let (r, ns) = m s.space in (r, record s { space = ns })

abbrev pub new_entry : Env → Request → ℕ → Entry
new_entry env req sequence = record {
  ticket = env.new_name;
  job_id = req.job_id;
  workload = req.workload;
  device = req.device;
  sequence = sequence;
  deadline = req.deadline;
  inode = env.new_inode;
}

abbrev new_ticket : Env → TicketFile
new_ticket env = record {
  name = env.new_name;
  stat = created_stat env env.new_inode;
  locked = true;
}

abbrev pub with_ticket : Env → Namespace → Namespace
with_ticket env ns = record ns { tickets = new_ticket env ∷ ns.tickets }

abbrev pub enqueued : Env → Request → State → State
enqueued env req state = record state {
  next_sequence = state.next_sequence + 1;
  queue = state.queue ++ new_entry env req state.next_sequence ∷ [];
}

abbrev pub is_full : Request → State → Bool
is_full req state =
    leb max_queue (length state.queue)
    || leb max_workload_queue (count_kind req.workload state.queue)

-- A new ticket file and queue entry; `O_EXCL` refuses a name that exists.
unfoldable pub enqueue : Env → Request → Exec Session (Unit {0})
enqueue env req s =
    let ns = s.space in
    if is_full req ns.state
    then (err queue_full, s)
    else if any (λ f. str_eq f.name env.new_name) ns.tickets
    then (err unavailable, s)
    else in_space (save env (enqueued env req ns.state)) (record {
      space = with_ticket env ns;
      item = some (new_entry env req ns.state.next_sequence);
    })

abbrev admit : Env → Request → Exec Session (Unit {0})
admit env req s = elim s.item [ none ↦ enqueue env req s | some item ↦ (ok tt, s) ]

pub data Progress : Type 0 where
  granted : Lease → Progress
  queued : ℕ → Progress
  lost : Progress

abbrev pub is_held : Option Grant → Bool
is_held none = false
is_held (some g) = elim g.phase [ held ↦ true | releasing ↦ false ]

abbrev pub is_named : String → Option Grant → Bool
is_named ticket none = false
is_named ticket (some g) = str_eq g.ticket ticket

-- `[row for row in queue if row["ticket"] != item["ticket"]]`
abbrev pub without : String → List Entry → List Entry
without ticket = keep (λ row. not (str_eq row.ticket ticket))

abbrev pub granted_state : Entry → Phase → State → State
granted_state item phase state = record state {
  active = some (record {
    ticket = item.ticket;
    job_id = item.job_id;
    workload = item.workload;
    device = item.device;
    phase = phase;
  });
  last = some item.workload;
  queue = without item.ticket state.queue;
}

abbrev pub new_lease : ℕ → Entry → Lease
new_lease owner item = record {
  ticket = item.ticket;
  device = item.device;
  workload = item.workload;
  deadline = item.deadline;
  owner = owner;
  is_open = true;
}

-- What an error leaves after the grant was begun: the guard is closed again, and the grant is saved
-- as releasing if that can be saved.
abbrev recover : Env → Entry → State → Code → Namespace → Result Progress × Session
recover env item state c ns = (
  err c,
  record { space = (save env (granted_state item releasing state) ns).1; item = some item },
)

abbrev finish_grant :
    Env → ℕ → Entry → State → Result (Unit {0}) × Namespace → Result Progress × Session
finish_grant env owner item state (err c, ns) = recover env item state c ns
finish_grant env owner item state (ok _, ns) =
    (ok (granted (new_lease owner item)), record { space = record ns { guards = 1 }; item = none })

-- The grant to the head of the order: save it, unlink the ticket, keep the guard.
unfoldable pub grant : Env → ℕ → Entry → Exec Session Progress
grant env owner item s =
    let ns = s.space in
    let granting : Exec Namespace (Unit {0}) = (do
      save env (granted_state item held ns.state)
      unlink_ticket item) in
    if ns.anchored then finish_grant env owner item ns.state (granting ns) else (err unavailable, s)

-- `1 + next(i for i, row in enumerate(ordered) if row["ticket"] == ...)`
abbrev pub place : String → List Entry → ℕ
place ticket [] = 1
place ticket (row ∷ rows) = if str_eq row.ticket ticket then 1 else suc (place ticket rows)

abbrev pub is_head : String → List Entry → Bool
is_head ticket [] = false
is_head ticket (row ∷ rows) = str_eq row.ticket ticket

-- The turn of a queued request: lost, refused by quarantine, granted or still waiting.
unfoldable pub serve : Env → ℕ → Entry → Exec Session Progress
serve env owner item s =
    let ns = s.space in
    let ordered = order ns.state in
    if not (any (λ row. str_eq row.ticket item.ticket) ordered)
    then (ok lost, s)
    else if ns.guards == 0 && is_held ns.state.active
    then (err unavailable, s)
    else if ns.guards == 0 && is_head item.ticket ordered
    then grant env owner item s
    else (ok (queued (place item.ticket ordered)), s)

abbrev serve_item : Env → ℕ → Exec Session Progress
serve_item env owner s = elim s.item [ none ↦ (ok lost, s) | some item ↦ serve env owner item s ]

-- One turn of the loop, under the registry's lock.
unfoldable pub acquire_pass : Env → ℕ → Request → Exec Session Progress
acquire_pass env owner req = do
  _ ← in_space open_registry
  in_space (prune env)
  admit env req
  serve_item env owner

-- `next((row for row in queue if row["ticket"] == ...), None)`
unfoldable pub find_entry : String → List Entry → Option Entry
find_entry ticket [] = none
find_entry ticket (row ∷ rows) =
    if str_eq row.ticket ticket then some row else find_entry ticket rows

-- The queue without this entry is saved first, then its ticket is unlinked.
abbrev pub remove_entry : Env → Entry → Exec Namespace (Unit {0})
remove_entry env item = do
  λ ns. save env (record ns.state { queue = without item.ticket ns.state.queue }) ns
  unlink_ticket item

abbrev withdraw_found : Env → Entry → Option Entry → Exec Namespace (Unit {0})
withdraw_found env item none ns = (ok tt, ns)
withdraw_found env item (some row) ns =
    if same_entry row item then remove_entry env item ns else (err unavailable, ns)

abbrev pub withdraw_open : Env → Entry → Exec Namespace (Unit {0})
withdraw_open env item =
    open_registry >>= λ state. withdraw_found env item (find_entry item.ticket state.queue)

-- `ticket.close()`: the lock of the request's ticket file is free.
abbrev unlock_ticket : String → List TicketFile → List TicketFile
unlock_ticket name [] = []
unlock_ticket name (f ∷ files) =
    if str_eq f.name name then record f { locked = false } ∷ files else f ∷ unlock_ticket name files

-- The `finally` clause of `_acquire`: the entry is taken out of the queue, unless the registry is
-- busy or refuses, and the ticket is closed.
unfoldable pub withdraw : Env → Bool → Option Entry → Namespace → Namespace
withdraw env busy none ns = ns
withdraw env busy (some item) ns =
    let ns' : Namespace = if busy then ns else (withdraw_open env item ns).1 in
    record ns' { tickets = unlock_ticket item.ticket ns'.tickets }

pub data Outcome : Type 0 where
  leased : Lease → Outcome
  refused : Code → Outcome
  waits : ℕ → Outcome

abbrev refuse_with : Env → Answers → Code → Session → Outcome × Session
refuse_with env answers c s =
    (refused c, record { space = withdraw env answers.busy s.item s.space; item = none })

abbrev conclude : Env → Answers → Request → Result Progress × Session → Outcome × Session
conclude env answers req (err c, s) = refuse_with env answers c s
conclude env answers req (ok (granted lease), s) = (leased lease, s)
conclude env answers req (ok (queued n), s) = (waits n, s)
conclude env answers req (ok lost, s) = elim (check_request answers env.now req.deadline) [
  | ok _ ↦ refuse_with env answers lost_lease s
  | err c ↦ refuse_with env answers c s
]

-- One iteration of the loop of `_acquire`, to its return, its error or its sleep.
unfoldable pub iterate : Env → Answers → ℕ → Request → Session → Outcome × Session
iterate env answers owner req s = elim (check_request answers env.now req.deadline) [
  | err c ↦ refuse_with env answers c s
  | ok _ ↦ conclude env answers req (acquire_pass env owner req s)
]

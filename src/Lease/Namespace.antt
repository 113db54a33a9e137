-- ===== src/Lease/Namespace.antt =====
-- The lease namespace on disk and the kernel locks on its files, with `_file_info`, `_write`,
-- `save` and `unlink_ticket`.
pub mod Frame
use kilix_system_monitor.Prelude.{
  ℕ, String, Bool, true, ◌&&◌, Option, none, some, List, [], ◌∷◌, leb, ◌==◌, str_eq, if◌then◌else◌,
}
use kilix_system_monitor.Lease.Entry.{Inode, Entry, State}
use kilix_system_monitor.Lease.Schema.{is_valid}
use kilix_system_monitor.Lease.Exec.{ok, err, unavailable, Exec, pure, ◌>>◌, require}

-- What `os.fstat` tells of a file; `mode` is `stat.S_IMODE`.
pub record FileStat : Type 0 where
  pub regular : Bool
  pub uid : ℕ
  pub mode : ℕ
  pub nlink : ℕ
  pub identity : Inode

-- `<token>.ticket`; `locked` while an open file description holds its lock.
pub record TicketFile : Type 0 where
  pub name : String
  pub stat : FileStat
  pub locked : Bool

-- `anchored`: the parent, the anchor, the directory and `accelerator.lock` are the files whose
-- identities the registry recorded, so that `validate` accepts.
-- `stale`: a left-over `state.next`. `foreign`: entries of other names.
-- `guards`: the open copies of the granted description of `accelerator.lock`, which hold its lock.
pub record Namespace : Type 0 where
  pub state : State
  pub tickets : List TicketFile
  pub stale : Option FileStat
  pub foreign : ℕ
  pub anchored : Bool
  pub guards : ℕ

-- What one pass reads from outside: the clock, the effective user, the random name and the inode of
-- a new ticket, and the length in bytes of an encoded record with its newline.
pub record Env : Type 0 where
  pub now : ℕ
  pub euid : ℕ
  pub new_name : String
  pub new_inode : Inode
  pub record_size : State → ℕ

abbrev pub max_bytes : ℕ
max_bytes = 32768

abbrev pub private_mode : ℕ
private_mode = 0o600

abbrev pub same_inode : Inode → Inode → Bool
same_inode (d, i) (e, j) = d == e && i == j

-- The test of `_file_info`.
unfoldable pub is_trusted : Env → FileStat → Bool
is_trusted env info =
    info.regular && info.uid == env.euid && info.mode == private_mode && info.nlink == 1

-- A file this process has just created and given mode 0600.
abbrev pub created_stat : Env → Inode → FileStat
created_stat env inode = record {
  regular = true;
  uid = env.euid;
  mode = private_mode;
  nlink = 1;
  identity = inode;
}

-- The file of a ticket, as `os.open` or `os.stat` of its name finds it.
unfoldable pub find_ticket : String → List TicketFile → Option TicketFile
find_ticket name [] = none
find_ticket name (f ∷ files) = if str_eq f.name name then some f else find_ticket name files

unfoldable pub remove_ticket : String → List TicketFile → List TicketFile
remove_ticket name [] = []
remove_ticket name (f ∷ files) = if str_eq f.name name then files else f ∷ remove_ticket name files

-- The stale `state.next` of a dead coordinator is checked and unlinked.
abbrev drop_stale : Env → Option FileStat → Exec Namespace (Unit {0})
drop_stale env none = pure tt
drop_stale env (some info) = do
  require (is_trusted env info) unavailable
  λ ns. (ok tt, record ns { stale = none })

-- The new `state.next`, empty at first; `_write` refuses a record past its bound, and `os.replace`
-- makes the written file `state.json`.
abbrev replace_state : Env → State → Exec Namespace (Unit {0})
replace_state env value ns =
    if leb (env.record_size value) max_bytes
    then (ok tt, record ns { state = value })
    else (err unavailable, record ns { stale = some (created_stat env env.new_inode) })

-- `_Registry.save`, where the calls of the operating system succeed: their OSErrors, which `acquire`
-- turns into `unavailable`, are not modelled.
unfoldable pub save : Env → State → Exec Namespace (Unit {0})
save env value = do
  require (is_valid value) unavailable
  λ ns. drop_stale env ns.stale ns
  replace_state env value

abbrev unlink_found : Entry → Option TicketFile → Exec Namespace (Unit {0})
unlink_found item none = pure tt
unlink_found item (some f) = do
  require (same_inode f.stat.identity item.inode) unavailable
  λ ns. (ok tt, record ns { tickets = remove_ticket item.ticket ns.tickets })

-- `_Registry.unlink_ticket`
unfoldable pub unlink_ticket : Entry → Exec Namespace (Unit {0})
unfolding remove_ticket
unlink_ticket item ns = unlink_found item (find_ticket item.ticket ns.tickets) ns

-- `_Registry(path, ...)` on a namespace that exists, its anchor lock free: the identities are
-- validated and the record of `state.json` is checked.
unfoldable pub open_registry : Exec Namespace State
open_registry ns =
    if ns.anchored && is_valid ns.state then (ok ns.state, ns) else (err unavailable, ns)

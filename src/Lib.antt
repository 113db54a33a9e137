-- ===== src/Lib.antt =====
-- kilix-system-monitor: models of its components and proofs about them.
--
-- The program is a monorepo of small Python services. Lease models the shared accelerator lease of
-- components/kilix-device-lease/src/kilix_device_lease/__init__.py; the other folders are named
-- below. Prelude holds the shared names, Boolean tests and list lemmas.
--
-- The lease. Processes that want the accelerator call acquire; each iteration of its loop opens the
-- registry under the anchor lock, prunes the queue, queues the request once and looks at its turn.
-- The holder of a Lease releases it, with or without an acknowledgement of cleanup.
--   Lease/Entry: the queue entries, the grant and the record of state.json (Entry, Grant, State).
--   Lease/Schema: _token, _label, _entry and _state (is_token, is_label, is_entry, is_valid).
--   Lease/Exec: LeaseError codes and operations that may raise.
--   Lease/Namespace: the directory of the registry, the kernel locks on its files, save,
--     unlink_ticket and _file_info (is_trusted).
--   Lease/Prune: _Registry.prune. Lease/Order: _Registry.order.
--   Lease/Acquire: _acquire, its iteration (iterate), its turn under the lock (acquire_pass, serve,
--     grant) and its finally clause (withdraw).
--   Lease/Release: Lease._owned, Lease._check and Lease.release.
--   Lease/System: any interleaving of iterations, releases, deaths, forks and changes of files.
-- A pass under the registry's lock is one step, since the anchor lock excludes every other pass.
-- Times are nanoseconds of the monotonic clock as natural numbers, and all readings of one pass are
-- one value. The JSON shape of a record is carried by the record types; the length of an encoded
-- record is a parameter of the pass (record_size). The flag anchored stands for the identity checks
-- of validate. Of the errors within a pass, the refusals of _state, of a stale file and of the
-- record's size are modelled; an OSError of open, fchmod, pwrite, ftruncate, fsync, replace or
-- unlink, which acquire turns into unavailable, is not. Waiting for the anchor lock, the creation and
-- adoption of a namespace, the callbacks' own exceptions and the bookkeeping of descriptors after a
-- fork are not modelled. The loop of order runs on fuel 3 * length of the queue: of three turns in a
-- row one serves an entry, and
-- order-of_kind shows that none is left out.
--
-- The model sizer, components/plebian-model-sizer/src/plebian_model_sizer. A recommendation
-- validates a catalog and a snapshot of resources, makes one budget per phase, estimates every
-- checkpoint of every candidate, and lists the candidates that fit.
--   Sizer/Checked: values read from JSON, and checks that raise ValueError (integer).
--   Sizer/Resources: validate and budgets of resources.py. Sizer/Nvidia: its parse_nvidia, for text
--     in ASCII, which is all that the code passes to it.
--   Sizer/Geometry: Workload, geometry and parameter_shapes of estimate.py.
--   Sizer/Catalog: validate_catalog. Sizer/Estimate: estimate. Sizer/Recommend: assess, recommend.
--   Sizer/Chat: recommend_chat of chat.py.
-- A JSON value of a number's field is absent, a natural number or anything else (Value); the types
-- of the other fields carry the isinstance checks. Regular expressions are tests on the codes of
-- characters. Times are microseconds. The probes that read the system, and the digest, the notes and
-- the constant fields of the report, are not modelled.
--
-- The telemetry ring, components/kilix-telemetry/src/kilix_telemetry/ring.py. One daemon publishes
-- snapshots to a mapped file; clients copy a slot under a shared lock and decode it outside.
--   Ring: the file as its header and its slots (Header, Slot, Ring), the checks of _header
--     (is_open) and the single writes.
--   Ring/Exchange: _pack, publish, _copy_slot, _parse_slot, latest and history, over json, zlib and
--     the conversions of model.py as a record (Codec).
--   Ring/Fit: the loop of _fit_processes, over the payloads that it packs.
-- Fields are records and not packed bytes, and the process identifier in the header is left out.
-- Numbers are those that fit their fields: publish never raises the struct.error that a number past
-- its packed field gives in ring.py, and what that leaves of the slot is not modelled. A publication
-- is four writes under an exclusive lock, and publish_until is what a writer leaves that dies between
-- them. The search has as much fuel as there are processes and one more; fit_processes-IsBoundary
-- shows that it is enough.
--
-- The process tree, components/kilix-telemetry/src/kilix_telemetry/model.py.
--   ProcessTree: _process_children as the lists live and children_of, and the walk of
--     _descendant_pids, whose pending list has its last element at the head.
-- The walk has as much fuel as there are roots and processes: a process is pushed only when its
-- parent is selected, and descendant_pids-Descends shows that a result is always given.
--
-- JSON, as Python reads and compares it.
--   Json: the values, the exceptions of the code (Error) and results that may raise (Outcome), and
--     int, float and str of a value. Json/Equal: ==. Json/Text: the length of a text and slices.
-- A float is a whole multiple of 2^-1074, infinite or not a number; the two zeros are one. An object
-- has its keys in the order of insertion. What Python makes of integers too large for a float, of
-- texts that are read as numbers, and of other values as texts, is a record (Conversions).
--
-- The wire records of telemetry, components/kilix-telemetry/src/kilix_telemetry/model.py.
--   Wire: the dataclasses. Wire/Read: the values of fields, and in its child Records the from_dict
--     methods. Wire/Write: to_dict and the functions
--     that it calls. Wire/Proper: the bounds of the wire format as predicates.
-- The derived properties of the records are not modelled.
--
-- The hardware snapshots, components/plebian-hardware/src/plebian_hardware/state.py. A client writes
-- its snapshot to a private directory, reads it back and compares it with another.
--   Hardware/Redaction: _contains_identifier with its regular expressions, validate_redaction.
--   Hardware/Snapshot: validate_snapshot, _canonical_bytes, _parse_snapshot.
--   Hardware/Cache: _open_private_directory over the state of each component of the path (Root), and
--     the readers of the cache. Hardware/Cache/Write: write_snapshot, over the answers of the
--     operating system (Answers).
--   Hardware/Changes: _projection and snapshot_changes.
-- json.dumps, json.loads and ipaddress.ip_address are a record (Library). The limits on nesting, the
-- descriptors, and default_state_root, which reads the environment, are not modelled; no other
-- process changes the files during a call.
--
-- The pane registry, components/kilix-telemetry/src/kilix_telemetry/registry.py. Clients list the
-- root processes of their panes in a locked file, and the sampler reads the union.
--   Registry: _decode, _clean_owners, _positive_pid, PaneRegistry.update and PaneRegistry.roots.
-- The file is what json.loads makes of it (Loaded): malformed text, which reads as no owners, like no
-- file; another exception, which is raised; or a value. An owner's key is its number. What json.dumps
-- writes and json.loads makes of it are parameters of update.
pub mod Hardware
pub mod Json
pub mod Lease
pub mod Prelude
pub mod ProcessTree
pub mod Registry
pub mod Ring
pub mod Sizer
pub mod Wire

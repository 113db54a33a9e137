-- ===== src/Hardware/Cache/Write.antt =====
-- `write_snapshot` of state.py.
use kilix_system_monitor.Prelude.{
  ℕ, zero, suc, Bool, true, false, Option, none, some, List, [], ◌∷◌, ◌++◌, length, leb,
  if◌then◌else◌,
}
use kilix_system_monitor.Json.{Json, Outcome, ok, raised, state_unavailable, ◌>>=◌, ◌>>◌}
use kilix_system_monitor.Hardware.Snapshot.{
  Library, require, max_snapshot_bytes, validate_snapshot, canonical_bytes,
}
use kilix_system_monitor.Hardware.Cache.{
  Root, File, Store, private_file_mode, open_private_directory, accept, is_private, open_file,
  parse_file,
}

-- What the calls of the operating system answer. `writes` are the lengths that the calls of
-- `os.write` may take, one less each; a call behind the last fails, as does `none`.
pub record Answers : Type 0 where
  pub stat_works : Bool
  pub create_works : Bool
  pub fchmod_works : Bool
  pub writes : List (Option ℕ)
  pub fsync_works : Bool
  pub replace_works : Bool
  pub directory_fsync_works : Bool
  pub unlink_works : Bool

-- The loop of `os.write`: what the file then holds, and whether all of the payload was written.
-- A call takes at most what is left.
abbrev pub transfer : ℕ → List ℕ → List ℕ → List ℕ × List ℕ
transfer n written [] = (written, [])
transfer zero written (x ∷ xs) = (written, x ∷ xs)
transfer (suc n) written (x ∷ xs) = transfer n (written ++ (x ∷ [])) xs

unfoldable pub write_all : List (Option ℕ) → List ℕ → List ℕ → List ℕ × Bool
write_all answers written [] = (written, true)
write_all [] written (x ∷ left) = (written, false)
write_all (none ∷ answers) written (x ∷ left) = (written, false)
write_all (some more ∷ answers) written (x ∷ left) =
    let now = transfer (suc more) written (x ∷ left) in write_all answers now.0 now.1

-- The file that `O_CREAT | O_EXCL` makes, with these bytes.
abbrev pub private_file : List ℕ → File
private_file bytes = record {
  openable = true;
  regular = true;
  owned = true;
  links = 1;
  mode = private_file_mode;
  bytes = bytes;
}

-- The temporary file up to `os.fsync`, and whether every call worked: `os.fchmod`, the writes and
-- `os.fsync`.
abbrev pub filled : Bool → List ℕ × Bool → Bool → File × Bool
filled false (bytes, done) fsync = (private_file [], false)
filled true (bytes, false) fsync = (private_file bytes, false)
filled true (bytes, true) fsync = (private_file bytes, fsync)

abbrev pub fill : Answers → List ℕ → File × Bool
fill answers payload =
    filled answers.fchmod_works (write_all answers.writes [] payload) answers.fsync_works

-- The `finally` clause where the temporary file is present.
abbrev pub cleaned : Answers → File → Store → Store
cleaned answers file store = record store {
  temporary = if answers.unlink_works then none else some file;
}

-- `os.replace` and the `os.fsync` of the directory; the flag tells whether `os.replace` works.
abbrev pub renamed : Bool → Answers → File → Store → Store × Outcome (Unit {0})
renamed false answers file store = (cleaned answers file store, raised state_unavailable)
renamed true answers file store =
    (record store { cache = some file; temporary = none }, accept answers.directory_fsync_works)

abbrev pub replaced : Answers → File × Bool → Store → Store × Outcome (Unit {0})
replaced answers (file, false) store = (cleaned answers file store, raised state_unavailable)
replaced answers (file, true) store = renamed answers.replace_works answers file store

-- The creation of the temporary file and all behind it.
abbrev pub created : Bool → Answers → List ℕ → Store → Store × Outcome (Unit {0})
created false answers payload store = (store, raised state_unavailable)
created true answers payload store = replaced answers (fill answers payload) store

module _ (lib : Library) where
  -- The file that stands under the cache's name is the program's own.
  abbrev pub inspect : Answers → Option File → Outcome (Unit {0})
  inspect answers existing = accept answers.stat_works >> (elim existing [
    | none ↦ ok tt
    | some file ↦
        accept (is_private file)
        >> (open_file (some file) >>= λ opened. parse_file lib true opened >>= λ _. ok tt)
  ])

  abbrev pub payload_of : Json → Outcome (List ℕ)
  payload_of document = validate_snapshot lib document >>= λ validated.
      canonical_bytes lib validated >>= λ payload.
      require (leb (length payload) max_snapshot_bytes) >> ok payload

  abbrev pub persist : Answers → List ℕ → Store → Outcome (Unit {0}) → Store × Outcome (Unit {0})
  persist answers payload store (raised e) = (store, raised e)
  persist answers payload store (ok _) = created answers.create_works answers payload store

  abbrev pub entered :
      Answers → List ℕ → Store → Root × Outcome (Unit {0}) → Store × Outcome (Unit {0})
  entered answers payload store (root, raised e) = (record store { root = root }, raised e)
  entered answers payload store (root, ok _) =
      persist answers payload (record store { root = root }) (inspect answers store.cache)

  abbrev pub written : Answers → Store → Outcome (List ℕ) → Store × Outcome (Unit {0})
  written answers store (raised e) = (store, raised e)
  written answers store (ok payload) =
      entered answers payload store (open_private_directory true store.root)

  -- `write_snapshot`
  unfoldable pub write_snapshot : Answers → Store → Json → Store × Outcome (Unit {0})
  write_snapshot answers store document = written answers store (payload_of document)

-- ===== src/Hardware/Cache.antt =====
-- `_open_private_directory`, `_read_open_file`, `read_snapshot`, `read_snapshot_file` and
-- `cache_status` of state.py. Descriptors, which every path closes, are not part of the state.
pub mod Write
pub mod Read
pub mod Replaced
pub mod Opened
pub mod Back
pub mod History
pub mod Tidy
use Prim.Native.String
use kilix_system_monitor.Prelude.{
  ℕ, zero, suc, ◌≡◌, ◌∙◌, ◌≤◌, refl, ap, ◌*◌, ◌+◌, arith, String, Bool, true, false, not, ◌&&◌,
  ◌||◌, Option, none, some, List, [], ◌∷◌, length, leb, ◌==◌, str_eq, any, if◌then◌else◌,
}
use kilix_system_monitor.Json.{
  Fields, Error, Outcome, ok, raised, state_unavailable, state_missing, ◌>>=◌, ◌>>◌,
}
use kilix_system_monitor.Hardware.Snapshot.{Library, require, max_snapshot_bytes, parse_snapshot}

-- `PRIVATE_DIRECTORY_MODE` and `PRIVATE_FILE_MODE`
abbrev private_directory_mode : ℕ
private_directory_mode = 7 * 64

abbrev pub private_file_mode : ℕ
private_file_mode = 6 * 64

-- What the opening of a component meets: a directory; nothing, and whether `mkdir`, the opening
-- and `fchmod` then work; or another error, as of a symbolic link.
pub data Status : Type 0 where
  present : Status
  missing : Bool → Status
  refused : Status

pub record Component : Type 0 where
  pub name : String
  pub status : Status

-- The path of a state root below `/`, and the last directory's owner and mode.
pub record Root : Type 0 where
  pub is_absolute : Bool
  pub components : List Component
  pub owned : Bool
  pub mode : ℕ

-- A file as `os.open` without links and `os.fstat` show it.
pub record File : Type 0 where
  pub openable : Bool
  pub regular : Bool
  pub owned : Bool
  pub links : ℕ
  pub mode : ℕ
  pub bytes : List ℕ

-- The files of the root that have the names `CACHE_FILENAME` and `temporary`.
pub record Store : Type 0 where
  pub root : Root
  pub cache : Option File
  pub temporary : Option File

abbrev pub is_dots : String → Bool
is_dots name = str_eq name String.[] || str_eq name "." || str_eq name ".."

abbrev pub behind : Component → List Component × Outcome Bool → List Component × Outcome Bool
behind component (rest, result) = (component ∷ rest, result)

-- One component; `go` is the loop over the components below it.
abbrev pub enter :
    Bool
    → Bool
    → Component
    → Status
    → List Component
    → (Bool → List Component × Outcome Bool)
    → List Component × Outcome Bool
enter create true component status rest go = (component ∷ rest, raised state_unavailable)
enter create false component present rest go = behind component (go false)
enter false false component (missing can) rest go = (component ∷ rest, raised state_missing)
enter true false component (missing false) rest go = (component ∷ rest, raised state_unavailable)
enter true false component (missing true) rest go =
    behind (record component { status = present }) (go true)
enter create false component refused rest go = (component ∷ rest, raised state_unavailable)

-- The loop over the components; `made` tells whether the last one has just been made.
abbrev pub descend : Bool → Bool → List Component → List Component × Outcome Bool
descend create made [] = ([], ok made)
descend create made (component ∷ rest) =
    enter create (is_dots component.name) component component.status rest
      (λ now. descend create now rest)

abbrev pub has_parent : List Component → Bool
has_parent components = any (λ component. str_eq component.name "..") components

-- Behind the loop: `os.fstat` of the last directory, which one that was just made passes.
abbrev pub as_made : Bool → Root → Root
as_made made root =
    if made then record root { owned = true; mode = private_directory_mode } else root

abbrev pub accept : Bool → Outcome (Unit {0})
accept true = ok tt
accept false = raised state_unavailable

-- The owner and the mode of the last directory.
abbrev pub is_own : Root → Bool
is_own root = root.owned && root.mode == private_directory_mode

abbrev pub admit : Root → List Component × Outcome Bool → Root × Outcome (Unit {0})
admit root (components, raised e) = (record root { components = components }, raised e)
admit root (components, ok made) =
    let last = as_made made (record root { components = components }) in
    (last, accept (is_own last))

-- A path that is not absolute, or is `/`, or goes up.
abbrev pub is_outside : Root → Bool
is_outside root = not root.is_absolute || length root.components == 0 || has_parent root.components

-- `_open_private_directory`
unfoldable pub open_private_directory : Bool → Root → Root × Outcome (Unit {0})
open_private_directory create root =
    if is_outside root
    then (root, raised state_unavailable)
    else admit root (descend create false root.components)

-- What `fstat` shows of a file that may be the cache.
abbrev pub is_private : File → Bool
is_private file = file.regular && file.owned && file.links == 1 && file.mode == private_file_mode

abbrev take : ℕ → List ℕ → List ℕ
take zero xs = []
take (suc n) [] = []
take (suc n) (x ∷ xs) = x ∷ take n xs

take-all : (n : ℕ) (xs : List ℕ) → length xs ≤ n → take n xs ≡ xs
take-all zero [] h = refl
take-all zero (x ∷ xs) h = absurd (omega (arith, h))
take-all (suc n) [] h = refl
take-all (suc n) (x ∷ xs) h = ap (λ ys. x ∷ ys) (take-all n xs (omega (arith, h)))

-- What `fstat` must show of a file that is read.
abbrev pub is_readable : File → Bool
is_readable file =
    is_private file && (leb 1 (length file.bytes) && leb (length file.bytes) max_snapshot_bytes)

abbrev pub bounded : List ℕ → Outcome (List ℕ)
bounded payload = require (leb (length payload) max_snapshot_bytes) >> ok payload

-- `_read_open_file`: the loop reads until nothing is left or one byte too many is read.
unfoldable pub read_open_file : File → Outcome (List ℕ)
read_open_file file =
    require (is_readable file) >> bounded (take (suc max_snapshot_bytes) file.bytes)

-- `os.open`, with what a name that is not there raises.
abbrev pub open_file : Option File → Outcome File
open_file none = raised state_unavailable
open_file (some file) = if file.openable then ok file else raised state_unavailable

-- `cache_status` of a root that exists: empty or valid.
pub data CacheStatus : Type 0 where
  absent empty valid : CacheStatus

module _ (lib : Library) where
  -- `_parse_snapshot(_read_open_file(descriptor), ...)`
  abbrev pub parse_file : Bool → File → Outcome Fields
  parse_file require_canonical file =
      read_open_file file >>= λ payload. parse_snapshot lib require_canonical payload

  -- `read_snapshot`
  unfoldable pub read_snapshot : Store → Outcome Fields
  read_snapshot store =
      (open_private_directory false store.root).1
      >> (open_file store.cache >>= λ file. parse_file true file)

  -- `read_snapshot_file`, of a file in the directory `parent`.
  unfoldable pub read_snapshot_file : String → Root → Option File → Outcome Fields
  read_snapshot_file name parent file =
      accept (parent.is_absolute && not (is_dots name))
      >> ((open_private_directory false parent).1
          >> (open_file file >>= λ opened. parse_file false opened))

  abbrev status_in : Option File → Outcome CacheStatus
  status_in none = ok empty
  status_in (some file) =
      open_file (some file) >>= λ opened. parse_file true opened >>= λ _. ok valid

  abbrev unless_missing : Outcome (Unit {0}) → Outcome CacheStatus → Outcome CacheStatus
  unless_missing (raised state_missing) status = ok absent
  unless_missing (raised e) status = raised e
  unless_missing (ok _) status = status

  -- `cache_status`
  unfoldable pub cache_status : Store → Outcome CacheStatus
  cache_status store =
      unless_missing ((open_private_directory false store.root).1) (status_in store.cache)

-- ===== src/Registry.antt =====
-- The registry of pane roots, components/kilix-telemetry/src/kilix_telemetry/registry.py.
pub mod Fresh
pub mod Sorted
mod Tests
use Prim.Native.String
use kilix_system_monitor.Prelude.{
  ℕ, zero, suc, ◌+◌, ◌*◌, String, Bool, true, false, ◌||◌, Option, none, some, List, [], ◌∷◌, ◌++◌,
  map, ltb, leb, ◌==◌, if◌then◌else◌,
}
use kilix_system_monitor.Prelude.Int.{ℤ, pos, negsuc}
use kilix_system_monitor.Json.{
  Json, null, bool, int, float, str, arr, obj, Items, nil, cons, Fields, end, field, get, get_or,
  Error, Outcome, ok, raised, value_error, ◌>>=◌, Conversions, to_int,
}
use kilix_system_monitor.Json.Equal.{equal}
use kilix_system_monitor.Wire.Read.{catching, take_items}

-- `MAX_OWNERS`
abbrev pub max_owners : ℕ
max_owners = 64

-- `MAX_ROOTS_PER_OWNER`
abbrev pub max_roots_per_owner : ℕ
max_roots_per_owner = 512

-- `MAX_REGISTRY_BYTES`
abbrev pub max_registry_bytes : ℕ
max_registry_bytes = 64 * 1024

-- An owner's entry: its process, the time of its update, and its roots.
pub record Owner : Type 0 where
  pub pid : ℕ
  pub updated_ns : ℕ
  pub roots : List ℕ

-- What `json.loads` makes of the file: a UnicodeDecodeError or a JSONDecodeError, as for an empty
-- file; another exception, such as ValueError for an integer of too many digits; or a value.
pub data Loaded : Type 0 where
  malformed : Loaded
  failed : Error → Loaded
  loaded : Json → Loaded

-- `_decode`: the owners of the value.
unfoldable pub decode : Loaded → Outcome Fields
decode malformed = ok end
decode (failed e) = raised e
decode (loaded (obj value)) =
    if equal (get "schema" value) (int (pos 1))
    then (elim (get "owners" value) [ obj owners ↦ ok owners | _ ↦ ok end ])
    else ok end
decode (loaded value) = ok end

abbrev pub take_fields : ℕ → Fields → Fields
take_fields zero fields = end
take_fields (suc n) end = end
take_fields (suc n) (field key value fields) = field key value (take_fields n fields)

abbrev pub if_positive : ℤ → Option ℕ
if_positive (pos zero) = none
if_positive (pos (suc n)) = some (suc n)
if_positive (negsuc n) = none

-- An element of a sorted set.
unfoldable pub insert : ℕ → List ℕ → List ℕ
insert x [] = x ∷ []
insert x (y ∷ ys) =
    let rest = insert x ys in if x == y then y ∷ ys else if ltb x y then x ∷ y ∷ ys else y ∷ rest

-- `sorted` of a set
unfoldable pub sorted_set : List ℕ → List ℕ
sorted_set [] = []
sorted_set (x ∷ xs) = insert x (sorted_set xs)

abbrev pub prepend : Option ℕ → List ℕ → List ℕ
prepend none pids = pids
prepend (some pid) pids = pid ∷ pids

-- `owners[str(owner)] = record`, by the number.
abbrev pub put_owner : Owner → List Owner → List Owner
put_owner owner [] = owner ∷ []
put_owner owner (other ∷ owners) =
    let rest = put_owner owner owners in
    if owner.pid == other.pid then owner ∷ owners else other ∷ rest

abbrev pub all_roots : List Owner → List ℕ
all_roots [] = []
all_roots (owner ∷ owners) = owner.roots ++ all_roots owners

module _ (c : Conversions) where
  -- `_positive_pid`
  unfoldable pub positive_pid : Json → Outcome (Option ℕ)
  positive_pid value = catching none (to_int c value >>= λ z. ok (if_positive z))

  -- The positive identifiers among the items.
  unfoldable pub pids_of : Items → Outcome (List ℕ)
  pids_of nil = ok []
  pids_of (cons value items) =
      positive_pid value >>= λ pid. pids_of items >>= λ pids. ok (prepend pid pids)

  abbrev pub clean_roots : Items → Outcome (List ℕ)
  clean_roots items =
      pids_of (take_items max_roots_per_owner items) >>= λ pids. ok (sorted_set pids)

  abbrev pub entry_numbers : String → Fields → Outcome (Option (ℤ × ℤ))
  entry_numbers key entry = catching none (
      to_int c (str key) >>= λ owner.
      to_int c (get_or "updated_ns" (int (pos 0)) entry) >>= λ updated. ok (some (owner, updated)))

  -- An entry of a positive process with a positive time that is not too old.
  abbrev pub fresh_entry : ℕ → ℕ → Option (ℤ × ℤ) → Option (ℕ × ℕ)
  fresh_entry now stale (some (pos (suc owner), pos (suc updated))) =
      if ltb (stale + suc updated) now then none else some (suc owner, suc updated)
  fresh_entry now stale _ = none

  abbrev pub with_roots : Option (ℕ × ℕ) → Json → Outcome (Option Owner)
  with_roots (some (owner, updated)) (arr items) = clean_roots items >>= λ roots.
      ok (some (record { pid = owner; updated_ns = updated; roots = roots }))
  with_roots _ value = ok none

  abbrev pub clean_entry : ℕ → ℕ → String → Json → Outcome (Option Owner)
  clean_entry now stale key (obj entry) = entry_numbers key entry >>= λ both.
      with_roots (fresh_entry now stale both) (get "roots" entry)
  clean_entry now stale key value = ok none

  abbrev pub put_some : Option Owner → List Owner → List Owner
  put_some none owners = owners
  put_some (some owner) owners = put_owner owner owners

  abbrev pub clean_from : ℕ → ℕ → List Owner → Fields → Outcome (List Owner)
  clean_from now stale owners end = ok owners
  clean_from now stale owners (field key value fields) =
      clean_entry now stale key value >>= λ owner.
      clean_from now stale (put_some owner owners) fields

  -- `_clean_owners`
  unfoldable pub clean_owners : ℕ → ℕ → Fields → Outcome (List Owner)
  clean_owners now stale owners = clean_from now stale [] (take_fields max_owners owners)

  abbrev int_items : List ℕ → Items
  int_items [] = nil
  int_items (n ∷ ns) = cons (int (pos n)) (int_items ns)

  abbrev owners_dict : List Owner → Fields
  owners_dict [] = end
  owners_dict (owner ∷ owners) =
      field (c.text_of (int (pos owner.pid)))
        (obj (
          field "updated_ns" (int (pos owner.updated_ns))
            (field "roots" (arr (int_items owner.roots)) end)))
        (owners_dict owners)

  abbrev registry_dict : List Owner → Fields
  registry_dict owners =
      field "schema" (int (pos 1)) (field "owners" (obj (owners_dict owners)) end)

  -- `PaneRegistry.update`, under the lock of the file: what the file then is. `size_of` is the length
  -- of the text that `json.dumps` writes, and `reload` what `json.loads` makes of it.
  unfoldable pub update :
      (Fields → ℕ) → (Fields → Loaded) → ℕ → ℕ → Json → Items → Loaded → Outcome Loaded
  update size_of reload now stale owner_pid roots file = positive_pid owner_pid >>= λ owner.
      elim owner [
        | none ↦ raised value_error
        | some pid ↦ clean_roots roots >>= λ cleaned. decode file >>= λ entries.
            clean_owners now stale entries >>= λ owners.
            let document =
              registry_dict
                (put_owner (record { pid = pid; updated_ns = now; roots = cleaned }) owners) in
            if leb (size_of document) max_registry_bytes
            then ok (reload document)
            else raised value_error
      ]

  -- `PaneRegistry.roots`; no file is `malformed` like an empty one.
  unfoldable pub roots : ℕ → ℕ → Loaded → Outcome (List ℕ)
  roots now stale file = decode file >>= λ entries.
      clean_owners now stale entries >>= λ owners. ok (sorted_set (all_roots owners))

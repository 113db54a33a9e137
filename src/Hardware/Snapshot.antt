-- ===== src/Hardware/Snapshot.antt =====
-- `validate_snapshot`, `_duplicate_safe_object`, `_canonical_bytes` and `_parse_snapshot` of
-- state.py. A text is the list of its codes; the bytes of ASCII text are its codes.
pub mod Parsed
use kilix_system_monitor.Prelude.{
  ℕ, zero, suc, ◌≡◌, ◌+◌, ◌*◌, String, Bool, true, false, not, ◌&&◌, ◌||◌, Option, none, some, List,
  [], ◌∷◌, ◌++◌, length, leb, ◌==◌, str_eq, all, any, if◌then◌else◌,
}
use kilix_system_monitor.Json.{
  Json, null, bool, int, float, str, arr, obj, Items, nil, cons, Fields, end, field, get, Outcome,
  ok, raised, snapshot_invalid, ◌>>=◌, ◌>>◌,
}
use kilix_system_monitor.Json.Equal.{equal, has}
use kilix_system_monitor.Hardware.Redaction.{
  codes, is_digit, starts_with, same_codes, never_collected, validate_redaction,
}

-- `MAX_SNAPSHOT_BYTES`
unfoldable pub max_snapshot_bytes : ℕ
max_snapshot_bytes = 4 * 1024 * 1024

-- What the code takes from Python's library: what `ipaddress.ip_address` accepts; `json.dumps`
-- with sorted keys and no spaces, none where it raises; and `json.loads` of UTF-8 with the given
-- `object_pairs_hook` and a `parse_constant` that raises, none where it raises.
pub record Library : Type 0 where
  pub is_address : List ℕ → Bool
  pub dumps : Fields → Option (List ℕ)
  pub loads : (List (String × Json) → Option Fields) → List ℕ → Option Json

-- `value[key] = item` for a key that is new.
abbrev put : String → Json → Fields → Fields
put key item end = field key item end
put key item (field name value fields) = field name value (put key item fields)

abbrev collect : Fields → List (String × Json) → Option Fields
collect value [] = some value
collect value ((key, item) ∷ pairs) =
    if has key value then none else collect (put key item value) pairs

-- `_duplicate_safe_object`
abbrev pub duplicate_safe_object : List (String × Json) → Option Fields
duplicate_safe_object pairs = collect end pairs

abbrev is_lower : ℕ → Bool
is_lower c = leb b'a' c && leb c b'z'

-- [a-z0-9]
abbrev begins_id : ℕ → Bool
begins_id c = is_lower c || is_digit c

-- [a-z0-9._:-]
abbrev in_id : ℕ → Bool
in_id c = begins_id c || (c == b'.') || (c == b'_') || (c == b':') || (c == b'-')

abbrev is_name : List ℕ → Bool
is_name [] = false
is_name (c ∷ cs) = begins_id c && all in_id cs && leb (length cs) 127

abbrev after : List ℕ → List ℕ → List ℕ
after [] cs = cs
after (d ∷ ds) [] = []
after (d ∷ ds) (c ∷ cs) = after ds cs

abbrev id_kinds : List String
id_kinds = "fixture:" ∷ "local:" ∷ "redacted:" ∷ []

-- `SNAPSHOT_ID.fullmatch`
abbrev pub is_snapshot_id : String → Bool
is_snapshot_id s =
    any (λ kind. starts_with (codes kind) (codes s) && is_name (after (codes kind) (codes s)))
      id_kinds

-- `EXPECTED_PRIVACY`
abbrev pub expected_privacy : Json
expected_privacy = obj (
    field "cache_mode" (str "0600") (
      field "classification" (str "fingerprinting-grade-local") (
        field "export_requires_warning" (bool true) (field "telemetry_eligible" (bool false) end))))

abbrev pub texts : List String → Items
texts [] = nil
texts (s ∷ ss) = cons (str s) (texts ss)

-- `value is False`
abbrev is_false : Json → Bool
is_false (bool b) = not b
is_false value = false

abbrev pub has_snapshot_id : Json → Bool
has_snapshot_id (str s) = is_snapshot_id s
has_snapshot_id value = false

-- Nothing was taken over the network, with privileges or for qualification.
abbrev pub is_local : Json → Bool
is_local (obj fields) =
    is_false (get "network_used" fields)
    && is_false (get "privileged" fields)
    && is_false (get "qualification_eligible" fields)
is_local value = false

-- The checks before the redaction, each of which raises SnapshotInvalid.
unfoldable pub is_observation : Fields → Bool
is_observation document =
    equal (get "schema" document) (str "plebian.hardware/v1")
    && has_snapshot_id (get "snapshot_id" document)
    && is_local (get "capture" document)
    && equal (get "privacy" document) expected_privacy
    && equal (get "never_collected" document) (arr (texts never_collected))

abbrev pub require : Bool → Outcome (Unit {0})
require true = ok tt
require false = raised snapshot_invalid

abbrev pub invalid_instead : {A : Type 0} → Outcome A → Outcome A
invalid_instead (ok a) = ok a
invalid_instead (raised e) = raised snapshot_invalid

abbrev pub as_line : Option (List ℕ) → Outcome (List ℕ)
as_line none = raised snapshot_invalid
as_line (some text) = ok (text ++ (10 ∷ []))

module _ (lib : Library) where
  -- `_canonical_bytes`, whose exceptions `validate_snapshot` turns into SnapshotInvalid.
  abbrev pub canonical_bytes : Fields → Outcome (List ℕ)
  canonical_bytes document = as_line (lib.dumps document)

  -- The checks behind the projection: no identifier, and finite JSON.
  abbrev pub redacted : Fields → Outcome Fields
  redacted document = invalid_instead (validate_redaction lib.is_address (obj document)) >>= λ _.
      canonical_bytes document >>= λ _. ok document

  -- `validate_snapshot`
  unfoldable pub validate_snapshot : Json → Outcome Fields
  validate_snapshot (obj document) = require (is_observation document) >> redacted document
  validate_snapshot document = raised snapshot_invalid

  abbrev pub loaded : Option Json → Outcome Json
  loaded none = raised snapshot_invalid
  loaded (some document) = ok document

  abbrev pub is_canonical : List ℕ → Fields → Outcome (Unit {0})
  is_canonical payload document =
      canonical_bytes document >>= λ written. require (same_codes payload written)

  -- `_parse_snapshot`
  unfoldable pub parse_snapshot : Bool → List ℕ → Outcome Fields
  parse_snapshot require_canonical payload =
      require (leb 1 (length payload) && leb (length payload) max_snapshot_bytes)
      >> (loaded (lib.loads duplicate_safe_object payload) >>= λ document.
          validate_snapshot document >>= λ validated.
          (if require_canonical then is_canonical payload validated else ok tt) >> ok validated)

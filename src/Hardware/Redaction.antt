-- ===== src/Hardware/Redaction.antt =====
-- `_contains_identifier` and `validate_redaction` of state.py. The regular expressions are
-- deterministic searches: a group of digits or of hexadecimal digits ends where the run ends.
pub mod Clean
use Prim.Native.Char.{code}
use Prim.Native.String
use kilix_system_monitor.Prelude.{
  ℕ, zero, suc, ◌+◌, String, Bool, true, false, not, ◌&&◌, ◌||◌, List, [], ◌∷◌, leb, ◌==◌, any,
  length, map, if◌then◌else◌,
}
use kilix_system_monitor.Json.{
  Json, null, bool, int, float, str, arr, obj, Items, nil, cons, Fields, end, field, Outcome, ok,
  raised, redaction_violation,
}

abbrev pub codes : String → List ℕ
codes String.[] = []
codes (String.◌∷◌ c s) = code c ∷ codes s

abbrev pub is_digit : ℕ → Bool
is_digit c = leb b'0' c && leb c b'9'

abbrev is_upper : ℕ → Bool
is_upper c = leb b'A' c && leb c b'Z'

abbrev lower : ℕ → ℕ
lower c = if is_upper c then c + 32 else c

abbrev is_hex : ℕ → Bool
is_hex c = is_digit c || (leb b'a' (lower c) && leb (lower c) b'f')

-- `key.lower().replace("-", "_")`, which is compared with ASCII only.
abbrev plain : ℕ → ℕ
plain c = if c == b'-' then b'_' else lower c

abbrev pub same_codes : List ℕ → List ℕ → Bool
same_codes [] [] = true
same_codes [] (d ∷ ds) = false
same_codes (c ∷ cs) [] = false
same_codes (c ∷ cs) (d ∷ ds) = c == d && same_codes cs ds

abbrev pub never_collected : List String
never_collected =
    "asset_tag" ∷ "hostname" ∷ "ip_address" ∷ "mac_address" ∷ "machine_id" ∷ "serial_number"
    ∷ "system_uuid" ∷ "username" ∷ []

-- `FORBIDDEN_SNAPSHOT_KEYS`
abbrev pub forbidden_keys : List String
forbidden_keys = "serial" ∷ "uuid" ∷ never_collected

abbrev pub is_forbidden : String → Bool
is_forbidden key = any (λ name. same_codes (map plain (codes key)) (codes name)) forbidden_keys

-- What stands before a match: nothing, or a code that the lookbehind allows.
abbrev pub starts_with : List ℕ → List ℕ → Bool
starts_with [] cs = true
starts_with (d ∷ ds) [] = false
starts_with (d ∷ ds) (c ∷ cs) = c == d && starts_with ds cs

-- `part in text`
abbrev contains : List ℕ → List ℕ → Bool
contains part [] = starts_with part []
contains part (c ∷ cs) = starts_with part (c ∷ cs) || contains part cs

abbrev ends_run : (ℕ → Bool) → List ℕ → Bool
ends_run test [] = true
ends_run test (c ∷ cs) = not (test c)

abbrev run_length : (ℕ → Bool) → List ℕ → ℕ
run_length test [] = 0
run_length test (c ∷ cs) = if test c then suc (run_length test cs) else 0

abbrev after_run : (ℕ → Bool) → List ℕ → List ℕ
after_run test [] = []
after_run test (c ∷ cs) = if test c then after_run test cs else c ∷ cs

-- [0-9]{1,3} where the run of digits ends with it.
abbrev is_group : List ℕ → Bool
is_group cs = leb 1 (run_length is_digit cs) && leb (run_length is_digit cs) 3

abbrev follows : ℕ → (List ℕ → Bool) → List ℕ → Bool
follows mark rest [] = false
follows mark rest (c ∷ cs) = c == mark && rest cs

-- (?:[0-9]{1,3}\.){n}[0-9]{1,3}(?![0-9])
abbrev quad : ℕ → List ℕ → Bool
quad zero cs = is_group cs
quad (suc n) cs = is_group cs && follows b'.' (quad n) (after_run is_digit cs)

-- (?:[0-9a-f]{2}:){n}[0-9a-f]{2}(?![0-9a-f]), in any case
abbrev pairs : ℕ → List ℕ → Bool
pairs zero (a ∷ b ∷ cs) = is_hex a && is_hex b && ends_run is_hex cs
pairs (suc n) (a ∷ b ∷ cs) = is_hex a && is_hex b && follows b':' (pairs n) cs
pairs n cs = false

-- `search`, for a match that does not start behind a code of the lookbehind.
abbrev search_from : (ℕ → Bool) → (List ℕ → Bool) → Bool → List ℕ → Bool
search_from behind match free [] = false
search_from behind match free (c ∷ cs) =
    (free && match (c ∷ cs)) || search_from behind match (not (behind c)) cs

abbrev pub has_ipv4 : List ℕ → Bool
has_ipv4 cs = search_from is_digit (quad 3) true cs

abbrev pub has_mac : List ℕ → Bool
has_mac cs = search_from is_hex (pairs 5) true cs

-- `removeprefix("[")` and `removesuffix("]")`
abbrev without_prefix : List ℕ → List ℕ
without_prefix [] = []
without_prefix (c ∷ cs) = if c == b'[' then cs else c ∷ cs

abbrev without_suffix : List ℕ → List ℕ
without_suffix [] = []
without_suffix (c ∷ []) = if c == b']' then [] else c ∷ []
without_suffix (c ∷ d ∷ cs) = c ∷ without_suffix (d ∷ cs)

-- `is_address` tells what `ipaddress.ip_address` accepts.
module _ (is_address : List ℕ → Bool) where
  unfoldable pub text_identifies : String → Bool
  text_identifies s =
      contains (codes "/home/") (codes s)
      || has_ipv4 (codes s)
      || has_mac (codes s)
      || is_address (without_suffix (without_prefix (codes s)))

  -- `_contains_identifier`; the limit on nesting is not modelled.
  unfoldable mutual
    pub contains_identifier : Json → Bool
    contains_identifier null = false
    contains_identifier (bool b) = false
    contains_identifier (int z) = false
    contains_identifier (float f) = false
    contains_identifier (str s) = text_identifies s
    contains_identifier (arr items) = items_identify items
    contains_identifier (obj fields) = fields_identify fields

    pub items_identify : Items → Bool
    items_identify nil = false
    items_identify (cons value items) = contains_identifier value || items_identify items

    pub fields_identify : Fields → Bool
    fields_identify end = false
    fields_identify (field key value fields) =
        is_forbidden key || (contains_identifier value || fields_identify fields)

  -- `validate_redaction`
  unfoldable pub validate_redaction : Json → Outcome Fields
  validate_redaction (obj fields) =
      if contains_identifier (obj fields) then raised redaction_violation else ok fields
  validate_redaction document = raised redaction_violation

-- ===== src/Sizer/Catalog.antt =====
-- `validate_catalog` of estimate.py, with the regular expressions as tests on the codes of the
-- characters.
pub mod Accepted
use kilix_system_monitor.Prelude.{
  ℕ, ◌+◌, ◌-◌, ◌^◌, String, Bool, true, false, not, ◌&&◌, ◌||◌, Option, none, some, List, [], ◌∷◌,
  leb, ◌==◌, str_eq, any, all, length, if◌then◌else◌,
}
use kilix_system_monitor.Sizer.Checked.{
  Value, absent, number, other, Error, invalid_catalog, invalid_count, invalid_id, invalid_model,
  invalid_revision, missing_files, invalid_file, total_mismatch, Checked, ok, err, ◌>>=◌, ◌>>◌,
  require, integer,
}
use kilix_system_monitor.Sizer.Geometry.{Checkpoint, WeightFile, codes, is_hex_digest}

pub record Candidate : Type 0 where
  pub id : String
  pub generation_checkpoint : Checkpoint
  pub decision_checkpoint : Checkpoint

pub record Catalog : Type 0 where
  pub schema : String
  pub candidates : List Candidate

abbrev pub is_digit : ℕ → Bool
is_digit c = leb b'0' c && leb c b'9'

abbrev pub is_lower : ℕ → Bool
is_lower c = leb b'a' c && leb c b'z'

abbrev pub is_upper : ℕ → Bool
is_upper c = leb b'A' c && leb c b'Z'

-- [._-]
abbrev pub is_mark : ℕ → Bool
is_mark c = c == b'.' || c == b'_' || c == b'-'

-- [A-Za-z0-9._-]
abbrev is_name_code : ℕ → Bool
is_name_code c = is_digit c || is_lower c || is_upper c || is_mark c

-- [a-z0-9][a-z0-9._-]{0,79}
abbrev id_codes : List ℕ → Bool
id_codes [] = false
id_codes (c ∷ cs) =
    (is_digit c || is_lower c)
    && leb (length cs) 79
    && all (λ c. is_digit c || is_lower c || is_mark c) cs

-- The part after the first slash: [A-Za-z0-9._-]+
abbrev repository_codes : List ℕ → Bool
repository_codes [] = false
repository_codes (c ∷ cs) = all is_name_code (c ∷ cs)

-- [A-Za-z0-9._-]*/[A-Za-z0-9._-]+
abbrev owner_codes : List ℕ → Bool
owner_codes [] = false
owner_codes (c ∷ cs) = if c == b'/' then repository_codes cs else is_name_code c && owner_codes cs

-- [A-Za-z0-9._-]+/[A-Za-z0-9._-]+
abbrev model_codes : List ℕ → Bool
model_codes [] = false
model_codes (c ∷ cs) = is_name_code c && owner_codes cs

abbrev same_codes : List ℕ → List ℕ → Bool
same_codes [] [] = true
same_codes [] (d ∷ ds) = false
same_codes (c ∷ cs) [] = false
same_codes (c ∷ cs) (d ∷ ds) = c == d && same_codes cs ds

-- [A-Za-z0-9_.-]*\.safetensors
abbrev suffix_codes : List ℕ → Bool
suffix_codes [] = false
suffix_codes (c ∷ cs) =
    same_codes (c ∷ cs) (codes ".safetensors") || (is_name_code c && suffix_codes cs)

-- [A-Za-z0-9_.-]+\.safetensors
abbrev path_codes : List ℕ → Bool
path_codes [] = false
path_codes (c ∷ cs) = is_name_code c && suffix_codes cs

abbrev pub occurs : String → List String → Bool
occurs name seen = any (λ s. str_eq s name) seen

-- The files of a checkpoint, with the paths seen before; the result is the sum of their sizes.
unfoldable pub check_files : List WeightFile → List String → Checked ℕ
check_files [] paths = ok 0
check_files (file ∷ files) paths = do
  require (path_codes (codes file.path) && not (occurs file.path paths)) invalid_file
  bytes ← integer file.bytes "checkpoint file bytes" (2 ^ 50) 1
  require (is_hex_digest 64 file.sha256) invalid_file
  rest ← check_files files (file.path ∷ paths)
  ok (bytes + rest)

abbrev pub is_total : Value → ℕ → Bool
is_total (number n) bytes = n == bytes
is_total absent bytes = false
is_total other bytes = false

-- The identity of one checkpoint.
unfoldable pub check_identity : Checkpoint → Checked (Unit {0})
check_identity checkpoint = do
  require (model_codes (codes checkpoint.model_id)) invalid_model
  require (is_hex_digest 40 checkpoint.revision) invalid_revision
  require
      (leb 1 (length checkpoint.checkpoint_files) && leb (length checkpoint.checkpoint_files) 256)
      missing_files
  total ← check_files checkpoint.checkpoint_files []
  require (is_total checkpoint.checkpoint_bytes total) total_mismatch

unfoldable pub check_candidates : List Candidate → List String → Checked (Unit {0})
check_candidates [] seen = ok tt
check_candidates (candidate ∷ candidates) seen = do
  require (id_codes (codes candidate.id) && not (occurs candidate.id seen)) invalid_id
  check_identity candidate.generation_checkpoint
  check_identity candidate.decision_checkpoint
  check_candidates candidates (candidate.id ∷ seen)

-- `validate_catalog`
unfoldable pub validate_catalog : Catalog → Checked (Unit {0})
validate_catalog catalog = do
  require (str_eq catalog.schema "kilix.help-llm.candidates/v1") invalid_catalog
  require (leb 1 (length catalog.candidates) && leb (length catalog.candidates) 256) invalid_count
  check_candidates catalog.candidates []

-- ===== src/Sizer/Chat.antt =====
-- `recommend_chat` of components/plebian-model-sizer/src/plebian_model_sizer/chat.py.
pub mod Usable
use kilix_system_monitor.Prelude.{
  ℕ, ◌+◌, ◌*◌, ◌/◌, ◌^◌, ◌≡◌, String, Bool, true, false, not, ◌&&◌, ◌||◌, Option, none, some, List,
  [], ◌∷◌, map, ltb, leb, ◌==◌, str_eq, any, all, keep, length, if◌then◌else◌,
}
use kilix_system_monitor.Sizer.Checked.{
  Value, absent, number, other, Checked, ok, err, ◌>>=◌, ◌>>◌, require, invalid_schema,
  invalid_count, invalid_id, invalid_model, as_int,
}
use kilix_system_monitor.Sizer.Resources.{
  Snapshot, Budget, Backend, cpu, gib, default_reserves, validate, budgets,
}
use kilix_system_monitor.Sizer.Geometry.{codes}
use kilix_system_monitor.Sizer.Catalog.{is_digit, is_lower, is_upper, is_mark}
use kilix_system_monitor.Sizer.Recommend.{Status, is_fit, status_of, precedes}

-- `REQUEST_SCHEMA`
abbrev pub request_schema : String
request_schema = "kilix.avatar-chat.sizing-request/v1"

-- A model of the request; `id` is none where it is no text, and a flag where it is no Boolean.
pub record ChatModel : Type 0 where
  pub id : Option String
  pub model_bytes : Value
  pub parameters : Value
  pub installed : Option Bool
  pub runtime_supported : Option Bool

-- `models` is none where it is no list, and an entry of it is none where it is no object.
pub record ChatRequest : Type 0 where
  pub schema : String
  pub models : Option (List (Option ChatModel))

abbrev begins_name : ℕ → Bool
begins_name c = is_digit c || is_lower c || is_upper c

abbrev in_name : ℕ → Bool
in_name c = begins_name c || is_mark c || c == b':' || c == b'/'

abbrev is_name_of : List ℕ → Bool
is_name_of [] = false
is_name_of (c ∷ cs) = begins_name c && all in_name cs && leb (length cs) 127

abbrev pub in_range : Value → ℕ → Bool
in_range (number n) maximum = leb 1 n && leb n maximum
in_range absent maximum = false
in_range other maximum = false

abbrev is_bool : Option Bool → Bool
is_bool none = false
is_bool (some b) = true

abbrev pub is_yes : Option Bool → Bool
is_yes none = false
is_yes (some b) = b

abbrev pub check_model : ChatModel → List String → Option String → Checked String
check_model m seen none = err invalid_id
check_model m seen (some id) =
    if is_name_of (codes id) && not (any (λ other_id. str_eq other_id id) seen)
    then (if in_range m.model_bytes (2 ^ 50)
          && in_range m.parameters (10 ^ 12)
          && is_bool m.installed
          && is_bool m.runtime_supported
        then ok id
        else err invalid_model)
    else err invalid_id

-- The models, where each is proper and no identifier comes again.
abbrev pub check_models : List (Option ChatModel) → List String → Checked (List ChatModel)
check_models [] seen = ok []
check_models (none ∷ models) seen = err invalid_model
check_models (some m ∷ models) seen = do
  id ← check_model m seen m.id
  rest ← check_models models (id ∷ seen)
  ok (m ∷ rest)

abbrev pub models_of : Option (List (Option ChatModel)) → Checked (List (Option ChatModel))
models_of none = err invalid_count
models_of (some models) =
    if leb 1 (length models) && leb (length models) 64 then ok models else err invalid_count

-- A row of the report.
pub record ChatRow : Type 0 where
  pub id : String
  pub parameters : ℕ
  pub installed : Bool
  pub runtime_supported : Bool
  pub required_ram_bytes : ℕ
  pub verdict : Status

abbrev pub id_text : Option String → String
id_text none = ""
id_text (some id) = id

-- Half of what is usable, where that is known.
abbrev pub half : Option ℕ → Option ℕ
half none = none
half (some available) = some (available / 2)

abbrev pub chat_row : Option ℕ → ChatModel → ChatRow
chat_row available m =
    let required = 2 * as_int m.model_bytes + gib / 2 in
    record {
      id = id_text m.id;
      parameters = as_int m.parameters;
      installed = is_yes m.installed;
      runtime_supported = is_yes m.runtime_supported;
      required_ram_bytes = required;
      verdict = status_of required (half available);
    }

abbrev pub is_usable : ChatRow → Bool
is_usable row = row.installed && row.runtime_supported && is_fit row.verdict

-- The key of the shortlist: the parameters from the largest on, then the identifier.
abbrev pub comes_first : ChatRow → ChatRow → Bool
comes_first r q =
    ltb q.parameters r.parameters
    || (r.parameters == q.parameters && precedes (codes r.id) (codes q.id))

abbrev pub insert_row : ChatRow → List ChatRow → List ChatRow
insert_row r [] = r ∷ []
insert_row r (q ∷ qs) = if comes_first r q then r ∷ q ∷ qs else q ∷ insert_row r qs

abbrev pub by_size : List ChatRow → List ChatRow
by_size [] = []
by_size (r ∷ rs) = insert_row r (by_size rs)

abbrev pub best_id : List ChatRow → Option String
best_id [] = none
best_id (r ∷ rs) = some r.id

pub record ChatReport : Type 0 where
  pub usable_ram_bytes : Option ℕ
  pub candidates : List ChatRow
  pub shortlist : List String
  pub provisional_candidate : Option String

abbrev pub usable_of : List ChatRow → List ChatRow
usable_of rows = by_size (keep is_usable rows)

abbrev pub report_of : Option ℕ → List ChatModel → ChatReport
report_of available models =
    let rows = map (chat_row available) models in
    record {
      usable_ram_bytes = available;
      candidates = rows;
      shortlist = map (λ r. ChatRow.id r) (usable_of rows);
      provisional_candidate = best_id (usable_of rows);
    }

-- `recommend_chat`, without the constants and the digest of its report.
unfoldable pub recommend_chat : ChatRequest → Snapshot → ℕ → Checked ChatReport
recommend_chat request s now = do
  validate s
  require (str_eq request.schema request_schema) invalid_schema
  entries ← models_of request.models
  models ← check_models entries []
  budget ← budgets s cpu none now default_reserves
  ok (report_of budget.ram_bytes models)

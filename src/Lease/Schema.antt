-- ===== src/Lease/Schema.antt =====
-- `_token`, `_label`, `_entry` and `_state`: what a registry record must satisfy to be read or saved.
-- The shape checks on the decoded JSON (field names and JSON types) are carried by the record types.
pub mod Valid
pub mod Preserve
use Prim.Native.Char.{code}
use kilix_system_monitor.Prelude.{
  ℕ, suc, ◌^◌, String, Bool, true, false, not, ◌&&◌, ◌||◌, Option, none, some, List, [], ◌∷◌, ltb,
  leb, ◌==◌, str_eq, length, any, all, if◌then◌else◌,
}
use kilix_system_monitor.Lease.Entry.{
  Workload, tts_utterance, stt_job, llm_turn, same, version_name, max_queue, max_workload_queue,
  Entry, Grant, State,
}

-- The characters of a text, by code point.
abbrev pub codes : String → List ℕ
codes String.[] = []
codes (String.◌∷◌ c s) = code c ∷ codes s

abbrev is_digit : ℕ → Bool
is_digit c = leb b'0' c && leb c b'9'

abbrev is_letter : ℕ → Bool
is_letter c = (leb b'A' c && leb c b'Z') || (leb b'a' c && leb c b'z')

-- [0-9a-f]
abbrev is_hex : ℕ → Bool
is_hex c = is_digit c || (leb b'a' c && leb c b'f')

-- [A-Za-z0-9_.:-]
abbrev is_label_part : ℕ → Bool
is_label_part c = is_letter c || is_digit c || c == b'_' || c == b'.' || c == b':' || c == b'-'

-- `_TOKEN.fullmatch`: [0-9a-f]{32}
unfoldable pub is_token : String → Bool
is_token s = length (codes s) == 32 && all is_hex (codes s)

-- [A-Za-z0-9][A-Za-z0-9_.:-]{0,95}
abbrev label_codes : List ℕ → Bool
label_codes [] = false
label_codes (c ∷ rest) =
    (is_letter c || is_digit c) && leb (length rest) 95 && all is_label_part rest

-- `_LABEL.fullmatch`
unfoldable pub is_label : String → Bool
is_label s = label_codes (codes s)

-- `_entry(value, queued=True)`
unfoldable pub is_entry : Entry → Bool
is_entry e = is_token e.ticket && is_label e.job_id && is_label e.device && ltb e.sequence (2 ^ 63)

-- `_entry(value, queued=False)`
unfoldable pub is_grant : Grant → Bool
is_grant g = is_token g.ticket && is_label g.job_id && is_label g.device

abbrev pub is_active : Option Grant → Bool
is_active none = true
is_active (some g) = is_grant g

-- `len(set(xs)) == len(xs)`
abbrev pub no_repeat {ℓ} : {A : Type ℓ} → (A → A → Bool) → List A → Bool
no_repeat eq [] = true
no_repeat eq (x ∷ xs) = not (any (eq x) xs) && no_repeat eq xs

-- `value["active"] and value["active"]["ticket"] in tickets`
abbrev pub queued_again : Option Grant → List Entry → Bool
queued_again none queue = false
queued_again (some g) queue = any (λ e. str_eq e.ticket g.ticket) queue

-- `sum(item["workload"] == kind for item in queue)`
abbrev pub count_kind : Workload → List Entry → ℕ
count_kind kind [] = 0
count_kind kind (e ∷ queue) =
    if same e.workload kind then suc (count_kind kind queue) else count_kind kind queue

-- The first refusal of `_state`.
abbrev is_supported : State → Bool
is_supported s =
    str_eq s.version version_name
    && ltb s.next_sequence (2 ^ 63)
    && leb (length s.queue) max_queue
    && is_active s.active
    && all is_entry s.queue

-- The second refusal of `_state`.
abbrev has_identities : State → Bool
has_identities s =
    no_repeat (λ a b. str_eq a.ticket b.ticket) s.queue
    && no_repeat (λ a b. a.sequence == b.sequence) s.queue
    && all (λ e. ltb e.sequence s.next_sequence) s.queue
    && not (queued_again s.active s.queue)
    && leb (count_kind tts_utterance s.queue) max_workload_queue
    && leb (count_kind stt_job s.queue) max_workload_queue
    && leb (count_kind llm_turn s.queue) max_workload_queue

-- `_state` accepts.
unfoldable pub is_valid : State → Bool
is_valid s = is_supported s && has_identities s

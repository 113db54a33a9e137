-- ===== src/Lease/Order.antt =====
-- `_Registry.order`: the fair order in which the queue is served.
pub mod Turns
mod Kinds
pub mod Complete
pub mod Rank
pub mod Wait
use kilix_system_monitor.Prelude.{
  ℕ, zero, suc, ◌*◌, Bool, true, false, Option, none, some, List, [], ◌∷◌, ◌++◌, leb, length, keep,
  if◌then◌else◌,
}
use kilix_system_monitor.Lease.Entry.{
  Workload, tts_utterance, stt_job, llm_turn, same, Entry, State,
}

-- The next index into WORKLOADS, modulo its length.
unfoldable pub following : Workload → Workload
following tts_utterance = stt_job
following stt_job = llm_turn
following llm_turn = tts_utterance

-- `sorted(..., key=lambda item: item["sequence"])`, which is stable.
abbrev insert_sequence : Entry → List Entry → List Entry
insert_sequence x [] = x ∷ []
insert_sequence x (y ∷ ys) =
    if leb x.sequence y.sequence then x ∷ y ∷ ys else y ∷ insert_sequence x ys

unfoldable pub sort_sequence : List Entry → List Entry
sort_sequence [] = []
sort_sequence (x ∷ xs) = insert_sequence x (sort_sequence xs)

-- The entries of one workload, in queue order.
abbrev pub of_kind : Workload → List Entry → List Entry
of_kind kind = keep (λ item. same item.workload kind)

-- The dictionary of groups, one list for each key.
pub record Groups : Type 0 where
  pub tts : List Entry
  pub stt : List Entry
  pub llm : List Entry

abbrev pub group : Groups → Workload → List Entry
group g tts_utterance = g.tts
group g stt_job = g.stt
group g llm_turn = g.llm

-- `groups[kind] = rest`, which is what `pop(0)` leaves.
abbrev replace_group : Groups → Workload → List Entry → Groups
replace_group g tts_utterance rest = record g { tts = rest }
replace_group g stt_job rest = record g { stt = rest }
replace_group g llm_turn rest = record g { llm = rest }

-- `any(groups.values())`
abbrev any_group : List Entry → List Entry → List Entry → Bool
any_group [] [] [] = false
any_group _ _ _ = true

-- The `while` loop, with the fuel that `order` gives it.
unfoldable pub rounds : ℕ → Groups → Workload → List Entry
rounds zero g kind = []
rounds (suc fuel) g kind = elim (any_group g.tts g.stt g.llm) [
  | false ↦ []
  | true ↦ elim (group g kind) [
    | [] ↦ rounds fuel g (following kind)
    | item ∷ rest ↦ item ∷ rounds fuel (replace_group g kind rest) (following kind)
  ]
]

abbrev pub first_kind : Option Workload → Workload
first_kind none = tts_utterance
first_kind (some last) = following last

abbrev pub groups_of : List Entry → Groups
groups_of queue = record {
  tts = sort_sequence (of_kind tts_utterance queue);
  stt = sort_sequence (of_kind stt_job queue);
  llm = sort_sequence (of_kind llm_turn queue);
}

-- Every third turn serves somebody, so three turns an entry are enough.
unfoldable pub order : State → List Entry
order s = rounds (3 * length s.queue) (groups_of s.queue) (first_kind s.last)

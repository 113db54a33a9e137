-- ===== src/Lease/Schema/Valid.antt =====
-- The checks of `_state`, one by one, as facts about a record.
use kilix_system_monitor.Prelude.{
  ◌^◌, ◌≤◌, ◌<◌, ◌≡◌, ◌≢◌, Bool, true, false, List, [], ◌∷◌, arith, ltb, ◌==◌, str_eq, length, any,
  all, All,
}
use kilix_system_monitor.Lease.Entry.{
  tts_utterance, stt_job, llm_turn, version_name, max_queue, max_workload_queue, Entry, State,
}
use kilix_system_monitor.Lease.Schema.{
  is_entry, is_active, no_repeat, queued_again, count_kind, is_valid,
}
use kilix_system_monitor.Lease.Order.Rank.{Distinct}

abbrev pub same_ticket : Entry → Entry → Bool
same_ticket a b = str_eq a.ticket b.ticket

abbrev pub same_sequence : Entry → Entry → Bool
same_sequence a b = a.sequence == b.sequence

pub record Valid (s : State) : Type 0 where
  pub version_ok : str_eq s.version version_name ≡ true
  pub next_ok : s.next_sequence < 2 ^ 63
  pub length_ok : length s.queue ≤ max_queue
  pub active_ok : is_active s.active ≡ true
  pub entries_ok : all is_entry s.queue ≡ true
  pub tickets_ok : no_repeat same_ticket s.queue ≡ true
  pub sequences_ok : no_repeat same_sequence s.queue ≡ true
  pub below_next : all (λ e. ltb e.sequence s.next_sequence) s.queue ≡ true
  pub not_again : queued_again s.active s.queue ≡ false
  pub tts_ok : count_kind tts_utterance s.queue ≤ max_workload_queue
  pub stt_ok : count_kind stt_job s.queue ≤ max_workload_queue
  pub llm_ok : count_kind llm_turn s.queue ≤ max_workload_queue

pub is_valid-Valid : (s : State) → is_valid s ≡ true → Valid s
unfolding is_valid
is_valid-Valid s h = ground arith

pub Valid-is_valid : (s : State) → Valid s → is_valid s ≡ true
unfolding is_valid
Valid-is_valid s v = ground arith

any-differ :
    (x : Entry) (l : List Entry)
    → any (same_sequence x) l ≡ false
    → All (λ y. y.sequence ≢ x.sequence) l
any-differ x [] h = tt
any-differ x (y ∷ l) h = (λ e. ground arith, any-differ x l (ground arith))

no_repeat-Distinct : (l : List Entry) → no_repeat same_sequence l ≡ true → Distinct l
no_repeat-Distinct [] h = tt
no_repeat-Distinct (x ∷ l) h = (any-differ x l (ground arith), no_repeat-Distinct l (ground arith))

-- A registry record that `_state` accepts has distinct sequences.
pub is_valid-Distinct : (s : State) → is_valid s ≡ true → Distinct s.queue
is_valid-Distinct s h = no_repeat-Distinct s.queue (is_valid-Valid s h).sequences_ok

-- ===== src/Lease/Order/Wait.antt =====
-- How long a request waits: the place of a queued entry in `order`.
use kilix_system_monitor.Prelude.{
  ℕ, ◌+◌, ◌*◌, ◌<◌, ◌≡◌, ap, true, some, List, arith, length, get_elem?, get_elem?-lt,
  get_elem?-keep, length-keep-le,
}
use kilix_system_monitor.Lease.Entry.{
  Workload, tts_utterance, stt_job, llm_turn, same, same_refl, Entry, State,
}
use kilix_system_monitor.Lease.Schema.{is_valid}
use kilix_system_monitor.Lease.Schema.Valid.{is_valid-Distinct}
use kilix_system_monitor.Lease.Order.{following, of_kind, first_kind, groups_of, group, order}
use kilix_system_monitor.Lease.Order.Turns.{
  turns, rounds-turns, Serves, Serves-weaken, Serves-first, Serves-second, Serves-third,
}
use kilix_system_monitor.Lease.Order.Kinds.{length-sort}
use kilix_system_monitor.Lease.Order.Complete.{group-groups_of}
use kilix_system_monitor.Lease.Order.Rank.{earlier, sort-rank, keep-Distinct}

module _ (f : ℕ) (a b c : List Entry) (i : ℕ) (x : Entry) where
  Serves-in_first : get_elem? a i ≡ some x → 3 * i + 2 < f → Serves (turns f a b c) (3 * i + 2) x
  Serves-in_first e h =
      Serves-weaken x _ (3 * i) (3 * i + 2) (omega arith) (Serves-first f a b c i x e (omega arith))

  Serves-in_second : get_elem? b i ≡ some x → 3 * i + 2 < f → Serves (turns f a b c) (3 * i + 2) x
  Serves-in_second e h =
      Serves-weaken x _ (3 * i + 1) (3 * i + 2) (omega arith)
        (Serves-second f a b c i x e (omega arith))

-- Within `3 * i + 2` places, whichever group comes first.
turns-Serves :
    (f : ℕ) (g : Workload → List Entry) (k j : Workload) (i : ℕ) (x : Entry)
    → get_elem? (g k) i ≡ some x
    → 3 * i + 2 < f
    → Serves (turns f (g j) (g (following j)) (g (following (following j)))) (3 * i + 2) x
unfolding following
turns-Serves f g tts_utterance tts_utterance i x e h = Serves-in_first f _ _ _ i x e h
turns-Serves f g tts_utterance stt_job i x e h = Serves-third f _ _ _ i x e h
turns-Serves f g tts_utterance llm_turn i x e h = Serves-in_second f _ _ _ i x e h
turns-Serves f g stt_job tts_utterance i x e h = Serves-in_second f _ _ _ i x e h
turns-Serves f g stt_job stt_job i x e h = Serves-in_first f _ _ _ i x e h
turns-Serves f g stt_job llm_turn i x e h = Serves-third f _ _ _ i x e h
turns-Serves f g llm_turn tts_utterance i x e h = Serves-third f _ _ _ i x e h
turns-Serves f g llm_turn stt_job i x e h = Serves-in_second f _ _ _ i x e h
turns-Serves f g llm_turn llm_turn i x e h = Serves-in_first f _ _ _ i x e h

-- A queued request is served within `3 * i + 2` places, where `i` counts the queued requests of its
-- own workload with a smaller sequence, whatever was granted last and however long the other
-- workloads' groups are, in a record that `_state` accepts.
pub order-Serves :
    (s : State) (q : ℕ) (x : Entry)
    → is_valid s ≡ true
    → get_elem? s.queue q ≡ some x
    → Serves (order s) (3 * earlier x.sequence (of_kind x.workload s.queue) + 2) x
unfolding order
order-Serves s q x h e =
    let d = is_valid-Distinct s h in
    let kind = λ (y : Entry). same y.workload x.workload in
    let (j, at) = get_elem?-keep kind s.queue q x e (same_refl x.workload) in
    let rank = earlier x.sequence (of_kind x.workload s.queue) in
    let found : get_elem? (group (groups_of s.queue) x.workload) rank ≡ some x =
      rw group-groups_of
        (sort-rank (of_kind x.workload s.queue) j x (keep-Distinct kind s.queue d) at) in
    rw rounds-turns (
      turns-Serves (3 * length s.queue) (group (groups_of s.queue)) x.workload (first_kind s.last)
        rank x found
        (omega (
          arith,
          get_elem?-lt (group (groups_of s.queue) x.workload) rank found,
          ap (length {A = Entry}) (group-groups_of s.queue x.workload),
          length-sort (of_kind x.workload s.queue),
          length-keep-le kind s.queue,
        )))

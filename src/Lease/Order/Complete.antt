-- ===== src/Lease/Order/Complete.antt =====
-- `order` serves the whole queue: each workload's entries once, in the order of their sequences.
use kilix_system_monitor.Prelude.{
  ℕ, zero, suc, ◌+◌, ◌*◌, ◌≤◌, ◌≡◌, refl, ap, Bool, true, false, List, [], ◌∷◌, arith, length, keep,
  All, length-keep-le,
}
use kilix_system_monitor.Lease.Entry.{
  Workload, tts_utterance, stt_job, llm_turn, same, Entry, State,
}
use kilix_system_monitor.Lease.Order.{
  following, sort_sequence, of_kind, first_kind, groups_of, group, order,
}
use kilix_system_monitor.Lease.Order.Turns.{turns, rounds-turns}
use kilix_system_monitor.Lease.Order.Kinds.{length-sort, sort-of_kind-kind, sort-of_kind-other}

module _ (p : Entry → Bool) where
  abbrev Chosen : List Entry → Type 0
  Chosen = All (λ x. p x ≡ true)

  abbrev Passed : List Entry → Type 0
  Passed = All (λ x. p x ≡ false)

  -- The entries that `p` chooses are those of one group: the loop leaves them in their order.
  mutual
    unfolding turns

    keep-turns_first :
        (f : ℕ) (a b c : List Entry)
        → Chosen a
        → Passed b
        → Passed c
        → 3 * length a ≤ f + 2
        → keep p (turns f a b c) ≡ a
    keep-turns_first zero [] b c ha hb hc h = refl
    keep-turns_first zero (x ∷ a) b c ha hb hc h = absurd (omega arith)
    keep-turns_first (suc f) [] [] [] ha hb hc h = refl
    keep-turns_first (suc f) [] [] (z ∷ c) ha hb hc h =
        keep-turns_third f [] (z ∷ c) [] hb hc ha (omega arith)
    keep-turns_first (suc f) [] (y ∷ b) c ha hb hc h =
        keep-turns_third f (y ∷ b) c [] hb hc ha (omega arith)
    keep-turns_first (suc f) (x ∷ a) b c ha hb hc h =
        rw ha.0 (ap (◌∷◌ x) (keep-turns_third f b c a hb hc ha.1 (omega arith)))

    keep-turns_second :
        (f : ℕ) (a b c : List Entry)
        → Passed a
        → Chosen b
        → Passed c
        → 3 * length b ≤ f + 1
        → keep p (turns f a b c) ≡ b
    keep-turns_second zero a [] c ha hb hc h = refl
    keep-turns_second zero a (y ∷ b) c ha hb hc h = absurd (omega arith)
    keep-turns_second (suc f) [] [] [] ha hb hc h = refl
    keep-turns_second (suc f) [] [] (z ∷ c) ha hb hc h =
        keep-turns_first f [] (z ∷ c) [] hb hc ha (omega arith)
    keep-turns_second (suc f) [] (y ∷ b) c ha hb hc h =
        keep-turns_first f (y ∷ b) c [] hb hc ha (omega arith)
    keep-turns_second (suc f) (x ∷ a) b c ha hb hc h =
        rw ha.0 (keep-turns_first f b c a hb hc ha.1 (omega arith))

    keep-turns_third :
        (f : ℕ) (a b c : List Entry)
        → Passed a
        → Passed b
        → Chosen c
        → 3 * length c ≤ f
        → keep p (turns f a b c) ≡ c
    keep-turns_third zero a b [] ha hb hc h = refl
    keep-turns_third zero a b (z ∷ c) ha hb hc h = absurd (omega arith)
    keep-turns_third (suc f) [] [] [] ha hb hc h = refl
    keep-turns_third (suc f) [] [] (z ∷ c) ha hb hc h =
        keep-turns_second f [] (z ∷ c) [] hb hc ha (omega arith)
    keep-turns_third (suc f) [] (y ∷ b) c ha hb hc h =
        keep-turns_second f (y ∷ b) c [] hb hc ha (omega arith)
    keep-turns_third (suc f) (x ∷ a) b c ha hb hc h =
        rw ha.0 (keep-turns_second f b c a hb hc ha.1 (omega arith))

module _ (queue : List Entry) where
  fuel : ℕ
  fuel = 3 * length queue

  abbrev sorted_kind : Workload → List Entry
  sorted_kind k = sort_sequence (of_kind k queue)

  length-sorted_kind : (k : Workload) → 3 * length (sorted_kind k) ≤ fuel
  unfolding fuel
  length-sorted_kind k = omega (
    arith,
    length-sort (of_kind k queue),
    length-keep-le (λ (x : Entry). same x.workload k) queue,
  )

  module _ (k i j : Workload) (hi : same i k ≡ false) (hj : same j k ≡ false) where
    chosen_first :
        of_kind k (turns fuel (sorted_kind k) (sorted_kind i) (sorted_kind j)) ≡ sorted_kind k
    chosen_first =
        keep-turns_first _ fuel _ _ _ (sort-of_kind-kind k queue) (sort-of_kind-other i k queue hi)
          (sort-of_kind-other j k queue hj) (omega (arith, length-sorted_kind k))

    chosen_second :
        of_kind k (turns fuel (sorted_kind i) (sorted_kind k) (sorted_kind j)) ≡ sorted_kind k
    chosen_second =
        keep-turns_second _ fuel _ _ _ (sort-of_kind-other i k queue hi) (sort-of_kind-kind k queue)
          (sort-of_kind-other j k queue hj) (omega (arith, length-sorted_kind k))

    chosen_third :
        of_kind k (turns fuel (sorted_kind i) (sorted_kind j) (sorted_kind k)) ≡ sorted_kind k
    chosen_third =
        keep-turns_third _ fuel _ _ _ (sort-of_kind-other i k queue hi)
          (sort-of_kind-other j k queue hj) (sort-of_kind-kind k queue) (length-sorted_kind k)

  -- Whichever group comes first, each group is served whole.
  turns-of_kind :
      (j k : Workload)
      → of_kind k (
          turns fuel
            (sorted_kind j)
            (sorted_kind (following j))
            (sorted_kind (following (following j))))
        ≡ sorted_kind k
  unfolding following
  turns-of_kind tts_utterance tts_utterance = chosen_first tts_utterance stt_job llm_turn refl refl
  turns-of_kind tts_utterance stt_job = chosen_second stt_job tts_utterance llm_turn refl refl
  turns-of_kind tts_utterance llm_turn = chosen_third llm_turn tts_utterance stt_job refl refl
  turns-of_kind stt_job tts_utterance = chosen_third tts_utterance stt_job llm_turn refl refl
  turns-of_kind stt_job stt_job = chosen_first stt_job llm_turn tts_utterance refl refl
  turns-of_kind stt_job llm_turn = chosen_second llm_turn stt_job tts_utterance refl refl
  turns-of_kind llm_turn tts_utterance = chosen_second tts_utterance llm_turn stt_job refl refl
  turns-of_kind llm_turn stt_job = chosen_third stt_job llm_turn tts_utterance refl refl
  turns-of_kind llm_turn llm_turn = chosen_first llm_turn tts_utterance stt_job refl refl

pub group-groups_of :
    (q : List Entry) (k : Workload) → group (groups_of q) k ≡ sort_sequence (of_kind k q)
group-groups_of q tts_utterance = refl
group-groups_of q stt_job = refl
group-groups_of q llm_turn = refl

-- In the order that the registry serves, the entries of each workload are those of the queue, each
-- as often as the queue holds it, sorted by their sequences.
pub order-of_kind :
    (s : State) (k : Workload) → of_kind k (order s) ≡ sort_sequence (of_kind k s.queue)
unfolding order fuel
order-of_kind s k =
    rw
      (
        rounds-turns,
        group-groups_of s.queue (first_kind s.last),
        group-groups_of s.queue (following (first_kind s.last)),
        group-groups_of s.queue (following (following (first_kind s.last))),
      )
      (turns-of_kind s.queue (first_kind s.last) k)

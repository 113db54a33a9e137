-- ===== src/Lease/Order/Kinds.antt =====
-- Sorting a group changes neither its length nor its workload.
use kilix_system_monitor.Prelude.{
  ◌≡◌, refl, true, false, List, [], ◌∷◌, arith, length, suc, All, Bool-cases, inl, inr,
}
use kilix_system_monitor.Lease.Entry.{Workload, tts_utterance, stt_job, llm_turn, same, Entry}
use kilix_system_monitor.Lease.Order.{insert_sequence, sort_sequence, of_kind}

length-insert : (x : Entry) (l : List Entry) → length (insert_sequence x l) ≡ suc (length l)
length-insert x [] = refl
length-insert x (y ∷ l) = ground (arith, length-insert x l)

pub length-sort : (l : List Entry) → length (sort_sequence l) ≡ length l
unfolding sort_sequence
length-sort [] = refl
length-sort (x ∷ l) = omega (arith, length-insert x (sort_sequence l), length-sort l)

module _ (P : Entry → Type 0) where
  insert-All : (x : Entry) (l : List Entry) → P x → All P l → All P (insert_sequence x l)
  insert-All x [] h hl = (h, tt)
  insert-All x (y ∷ l) h hl = ground (arith, insert-All x l h hl.1)

  pub sort-All : (l : List Entry) → All P l → All P (sort_sequence l)
  unfolding sort_sequence
  sort-All [] h = tt
  sort-All (x ∷ l) h = insert-All x (sort_sequence l) h.0 (sort-All l h.1)

of_kind-kind : (k : Workload) (l : List Entry) → All (λ x. same x.workload k ≡ true) (of_kind k l)
of_kind-kind k [] = tt
of_kind-kind k (x ∷ l) = elim (Bool-cases (same x.workload k)) [
  | inl e ↦ rw e (e, of_kind-kind k l)
  | inr e ↦ rw e (of_kind-kind k l)
]

same_other : (w j k : Workload) → same j k ≡ false → same w j ≡ true → same w k ≡ false
same_other tts_utterance j k h e = ground arith
same_other stt_job j k h e = ground arith
same_other llm_turn j k h e = ground arith

of_kind-other :
    (j k : Workload) (l : List Entry)
    → same j k ≡ false
    → All (λ x. same x.workload k ≡ false) (of_kind j l)
of_kind-other j k [] h = tt
of_kind-other j k (x ∷ l) h = elim (Bool-cases (same x.workload j)) [
  | inl e ↦ rw e (same_other x.workload j k h e, of_kind-other j k l h)
  | inr e ↦ rw e (of_kind-other j k l h)
]

pub sort-of_kind-kind :
    (k : Workload) (l : List Entry)
    → All (λ x. same x.workload k ≡ true) (sort_sequence (of_kind k l))
sort-of_kind-kind k l = sort-All _ (of_kind k l) (of_kind-kind k l)

pub sort-of_kind-other :
    (j k : Workload) (l : List Entry)
    → same j k ≡ false
    → All (λ x. same x.workload k ≡ false) (sort_sequence (of_kind j l))
sort-of_kind-other j k l h = sort-All _ (of_kind j l) (of_kind-other j k l h)

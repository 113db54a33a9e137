-- ===== src/Lease/Acquire/Saved.antt =====
-- The records that `_acquire` saves are accepted by `_state`.
use kilix_system_monitor.Prelude.{
  ℕ, suc, zero, String, ◌+◌, ◌^◌, ◌≤◌, ◌<◌, ◌≡◌, refl, ap, Bool, true, false, not, Option, none,
  some, List, [], ◌∷◌, ◌++◌, arith, ltb, leb, str_eq, length-append, any, all, get_elem?,
  if◌then◌else◌, Bool-cases, inl, inr, tests, leb→gt,
}
use kilix_system_monitor.Lease.Entry.{
  Workload, tts_utterance, stt_job, llm_turn, same, same-eq, Entry, Phase, State, Grant,
  max_workload_queue,
}
use kilix_system_monitor.Lease.Schema.{
  is_token, is_label, is_entry, is_grant, queued_again, count_kind, is_valid,
}
use kilix_system_monitor.Lease.Schema.Valid.{
  is_valid-Valid, Valid-is_valid, same_ticket, same_sequence,
}
use kilix_system_monitor.Lease.Schema.Preserve.{
  keep-is_valid, all-append, any-append, no_repeat-append, count_kind-append,
}
use kilix_system_monitor.Lease.Namespace.{Env}
use kilix_system_monitor.Lease.Acquire.{
  Request, granted_state, without, enqueued, new_entry, is_full,
}

any-without : (t : String) (l : List Entry) → any (λ e. str_eq e.ticket t) (without t l) ≡ false
any-without t [] = refl
any-without t (x ∷ l) = ground (arith, any-without t l)

get_elem?-all :
    (q : Entry → Bool) (l : List Entry) (i : ℕ) (x : Entry)
    → all q l ≡ true
    → get_elem? l i ≡ some x
    → q x ≡ true
get_elem?-all q [] i x h e = cc
get_elem?-all q (y ∷ l) zero x h e = ground arith
get_elem?-all q (y ∷ l) (suc i) x h e = get_elem?-all q l i x (ground arith) e

-- The record of a grant to a queued request, held or releasing, is accepted.
pub granted_state-is_valid :
    (s : State) (i : ℕ) (item : Entry) (phase : Phase)
    → is_valid s ≡ true
    → get_elem? s.queue i ≡ some item
    → is_valid (granted_state item phase s) ≡ true
unfolding is_entry is_grant
granted_state-is_valid s i item phase h e =
    let v = is_valid-Valid s h in
    let w = is_valid-Valid _ (keep-is_valid s (λ row. not (str_eq row.ticket item.ticket)) h) in
    let entry : is_entry item ≡ true = get_elem?-all is_entry s.queue i item v.entries_ok e in
    Valid-is_valid _ (record {
      version_ok = v.version_ok;
      next_ok = v.next_ok;
      length_ok = w.length_ok;
      active_ok = ground arith;
      entries_ok = w.entries_ok;
      tickets_ok = w.tickets_ok;
      sequences_ok = w.sequences_ok;
      below_next = w.below_next;
      not_again = any-without item.ticket s.queue;
      tts_ok = w.tts_ok;
      stt_ok = w.stt_ok;
      llm_ok = w.llm_ok;
    })

sequence_fresh :
    (n : ℕ) (l : List Entry) (x : Entry)
    → x.sequence ≡ n
    → all (λ e. ltb e.sequence n) l ≡ true
    → any (λ e. same_sequence e x) l ≡ false
sequence_fresh n [] x e h = refl
sequence_fresh n (y ∷ l) x e h = ground (arith, sequence_fresh n l x e)

below_suc :
    (n : ℕ) (l : List Entry)
    → all (λ e. ltb e.sequence n) l ≡ true
    → all (λ e. ltb e.sequence (n + 1)) l ≡ true
below_suc n [] h = refl
below_suc n (y ∷ l) h = ground (arith, below_suc n l)

queued_again-append :
    (active : Option Grant) (l : List Entry) (x : Entry)
    → queued_again active l ≡ false
    → queued_again active (x ∷ []) ≡ false
    → queued_again active (l ++ x ∷ []) ≡ false
queued_again-append none l x h k = refl
queued_again-append (some g) l x h k = any-append _ l x h (ground arith)

-- One more entry of a workload with room.
count_kind_room :
    (k : Workload) (l : List Entry) (x : Entry)
    → count_kind k l ≤ max_workload_queue
    → leb max_workload_queue (count_kind x.workload l) ≡ false
    → count_kind k (l ++ x ∷ []) ≤ max_workload_queue
count_kind_room k l x le room = elim (Bool-cases (same x.workload k)) [
  | inl e ↦ omega (
    tests,
    count_kind-append k l x,
    ap (λ (b : Bool). if b then suc (count_kind k l) else count_kind k l) e,
    leb→gt _ _ room,
    ap (λ j. count_kind j l) (same-eq x.workload k e),
  )
  | inr e ↦ rw (count_kind-append k l x, e) le
]

module _ (env : Env) (req : Request) (s : State) (h : is_valid s ≡ true) where
  -- A request with proper labels that finds room is queued under a new ticket: its record is
  -- accepted while sequences are left.
  pub enqueued-is_valid :
      is_full req s ≡ false
      → is_token env.new_name ≡ true
      → is_label req.job_id ≡ true
      → is_label req.device ≡ true
      → s.next_sequence + 1 < 2 ^ 63
      → any (λ e. str_eq e.ticket env.new_name) s.queue ≡ false
      → queued_again s.active (new_entry env req s.next_sequence ∷ []) ≡ false
      → is_valid (enqueued env req s) ≡ true
  unfolding is_entry
  enqueued-is_valid room token job device next fresh again =
      let v = is_valid-Valid s h in
      let x = new_entry env req s.next_sequence in
      Valid-is_valid _ (record {
        version_ok = v.version_ok;
        next_ok = next;
        length_ok = ground (arith, length-append s.queue (x ∷ []));
        active_ok = v.active_ok;
        entries_ok = all-append is_entry s.queue x v.entries_ok (ground (arith, v.next_ok));
        tickets_ok = no_repeat-append same_ticket s.queue x v.tickets_ok fresh;
        sequences_ok =
            no_repeat-append same_sequence s.queue x v.sequences_ok
              (sequence_fresh s.next_sequence s.queue x refl v.below_next);
        below_next =
            all-append _ s.queue x (below_suc s.next_sequence s.queue v.below_next) (ground arith);
        not_again = queued_again-append s.active s.queue x v.not_again again;
        tts_ok = count_kind_room tts_utterance s.queue x v.tts_ok workload_room;
        stt_ok = count_kind_room stt_job s.queue x v.stt_ok workload_room;
        llm_ok = count_kind_room llm_turn s.queue x v.llm_ok workload_room;
      })
    where
      workload_room : leb max_workload_queue (count_kind req.workload s.queue) ≡ false
      workload_room = ground arith

-- ===== src/Lease/Schema/Preserve.antt =====
-- The changes that the registry makes to a record keep it acceptable to `_state`.
use kilix_system_monitor.Prelude.{
  suc, ◌≤◌, ◌≡◌, refl, Bool, true, false, Option, none, some, List, [], ◌∷◌, ◌++◌, arith,
  length-keep-le, any, all, keep, if◌then◌else◌,
}
use kilix_system_monitor.Lease.Entry.{Workload, same, Entry, State, Grant}
use kilix_system_monitor.Lease.Schema.{is_entry, no_repeat, queued_again, count_kind, is_valid}
use kilix_system_monitor.Lease.Schema.Valid.{
  is_valid-Valid, Valid-is_valid, same_ticket, same_sequence,
}

module _ {A : Type 0} (p : A → Bool) where
  pub all-keep : (q : A → Bool) (l : List A) → all q l ≡ true → all q (keep p l) ≡ true
  all-keep q [] h = refl
  all-keep q (x ∷ l) h = ground (arith, all-keep q l)

  any-keep : (q : A → Bool) (l : List A) → any q l ≡ false → any q (keep p l) ≡ false
  any-keep q [] h = refl
  any-keep q (x ∷ l) h = ground (arith, any-keep q l)

  no_repeat-keep :
      (eq : A → A → Bool) (l : List A) → no_repeat eq l ≡ true → no_repeat eq (keep p l) ≡ true
  no_repeat-keep eq [] h = refl
  no_repeat-keep eq (x ∷ l) h = ground (arith, no_repeat-keep eq l, any-keep (eq x) l)

module _ {A : Type 0} where
  pub all-append :
      (q : A → Bool) (l : List A) (x : A) → all q l ≡ true → q x ≡ true → all q (l ++ x ∷ []) ≡ true
  all-append q [] x h hx = ground arith
  all-append q (y ∷ l) x h hx = ground (arith, all-append q l x)

  pub any-append :
      (q : A → Bool) (l : List A) (x : A)
      → any q l ≡ false
      → q x ≡ false
      → any q (l ++ x ∷ []) ≡ false
  any-append q [] x h hx = ground arith
  any-append q (y ∷ l) x h hx = ground (arith, any-append q l x)

  -- A new last element that nothing before it equals.
  pub no_repeat-append :
      (eq : A → A → Bool) (l : List A) (x : A)
      → no_repeat eq l ≡ true
      → any (λ y. eq y x) l ≡ false
      → no_repeat eq (l ++ x ∷ []) ≡ true
  no_repeat-append eq [] x h hx = refl
  no_repeat-append eq (y ∷ l) x h hx =
      ground (arith, no_repeat-append eq l x, any-append (eq y) l x)

pub count_kind-keep :
    (k : Workload) (p : Entry → Bool) (l : List Entry) → count_kind k (keep p l) ≤ count_kind k l
count_kind-keep k p [] = omega arith
count_kind-keep k p (x ∷ l) = ground (arith, count_kind-keep k p l)

pub count_kind-append :
    (k : Workload) (l : List Entry) (x : Entry)
    → count_kind k (l ++ x ∷ [])
      ≡ (if same x.workload k then suc (count_kind k l) else count_kind k l)
count_kind-append k [] x = refl
count_kind-append k (y ∷ l) x = ground (arith, count_kind-append k l x)

queued_again-keep :
    (active : Option Grant) (p : Entry → Bool) (l : List Entry)
    → queued_again active l ≡ false
    → queued_again active (keep p l) ≡ false
queued_again-keep none p l h = refl
queued_again-keep (some g) p l h = any-keep p _ l h

-- Entries are taken out of the queue.
pub keep-is_valid :
    (s : State) (p : Entry → Bool)
    → is_valid s ≡ true
    → is_valid (record s { queue = keep p s.queue }) ≡ true
keep-is_valid s p h =
    let v = is_valid-Valid s h in
    Valid-is_valid _ (record {
      version_ok = v.version_ok;
      next_ok = v.next_ok;
      length_ok = omega (arith, v.length_ok, length-keep-le p s.queue);
      active_ok = v.active_ok;
      entries_ok = all-keep p is_entry s.queue v.entries_ok;
      tickets_ok = no_repeat-keep p same_ticket s.queue v.tickets_ok;
      sequences_ok = no_repeat-keep p same_sequence s.queue v.sequences_ok;
      below_next = all-keep p _ s.queue v.below_next;
      not_again = queued_again-keep s.active p s.queue v.not_again;
      tts_ok = omega (arith, v.tts_ok, count_kind-keep _ p s.queue);
      stt_ok = omega (arith, v.stt_ok, count_kind-keep _ p s.queue);
      llm_ok = omega (arith, v.llm_ok, count_kind-keep _ p s.queue);
    })

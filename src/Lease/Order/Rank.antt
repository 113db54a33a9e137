-- ===== src/Lease/Order/Rank.antt =====
-- Where an entry stands in a sorted group: behind the entries of a smaller sequence.
use kilix_system_monitor.Prelude.{
  ℕ, zero, suc, ◌≤◌, ◌≡◌, refl, sym, ap, ◌∙◌, ◌≢◌, ◌⊎◌, inl, inr, Bool, true, false, some,
  some-injective, List, [], ◌∷◌, arith, ltb, leb, keep, get_elem?, All, keep-All, get_elem?-All,
  if◌then◌else◌, Bool-cases, leb→le, tests,
}
use kilix_system_monitor.Lease.Entry.{Entry}
use kilix_system_monitor.Lease.Order.{insert_sequence, sort_sequence}
use kilix_system_monitor.Lease.Order.Kinds.{sort-All}

-- The number of entries with a sequence below `n`.
abbrev pub earlier : ℕ → List Entry → ℕ
earlier n [] = 0
earlier n (y ∷ l) = if ltb y.sequence n then suc (earlier n l) else earlier n l

-- No two entries have one sequence.
abbrev pub Distinct : List Entry → Type 0
Distinct [] = Unit
Distinct (x ∷ l) = All (λ y. y.sequence ≢ x.sequence) l × Distinct l

abbrev pub IsSorted : List Entry → Type 0
IsSorted [] = Unit
IsSorted (x ∷ l) = All (λ y. x.sequence ≤ y.sequence) l × IsSorted l

All-weaken :
    (m n : ℕ) (l : List Entry) → m ≤ n → All (λ y. n ≤ y.sequence) l → All (λ y. m ≤ y.sequence) l
All-weaken m n [] h a = tt
All-weaken m n (y ∷ l) h a = (omega arith, All-weaken m n l h a.1)

insert-All_le :
    (n : ℕ) (x : Entry) (l : List Entry)
    → n ≤ x.sequence
    → All (λ y. n ≤ y.sequence) l
    → All (λ y. n ≤ y.sequence) (insert_sequence x l)
insert-All_le n x [] h a = (h, tt)
insert-All_le n x (y ∷ l) h a = ground (arith, insert-All_le n x l h a.1)

insert-IsSorted : (x : Entry) (l : List Entry) → IsSorted l → IsSorted (insert_sequence x l)
insert-IsSorted x [] s = (tt, tt)
insert-IsSorted x (y ∷ l) s = elim (Bool-cases (leb x.sequence y.sequence)) [
  | inl e ↦ rw e ((leb→le _ _ e, All-weaken x.sequence y.sequence l (leb→le _ _ e) s.0), s)
  | inr e ↦ rw e (insert-All_le y.sequence x l (ground arith) s.0, insert-IsSorted x l s.1)
]

pub sort-IsSorted : (l : List Entry) → IsSorted (sort_sequence l)
unfolding sort_sequence
sort-IsSorted [] = tt
sort-IsSorted (x ∷ l) = insert-IsSorted x (sort_sequence l) (sort-IsSorted l)

earlier-insert :
    (n : ℕ) (x : Entry) (l : List Entry) → earlier n (insert_sequence x l) ≡ earlier n (x ∷ l)
earlier-insert n x [] = refl
earlier-insert n x (y ∷ l) = ground (arith, earlier-insert n x l)

earlier-sort : (n : ℕ) (l : List Entry) → earlier n (sort_sequence l) ≡ earlier n l
unfolding sort_sequence
earlier-sort n [] = refl
earlier-sort n (x ∷ l) = ground (arith, earlier-insert n x (sort_sequence l), earlier-sort n l)

earlier_none : (n : ℕ) (l : List Entry) → All (λ y. n ≤ y.sequence) l → earlier n l ≡ 0
earlier_none n [] a = refl
earlier_none n (y ∷ l) a = ground (arith, earlier_none n l a.1)

insert_self :
    (x : Entry) (l : List Entry)
    → IsSorted l
    → All (λ y. y.sequence ≢ x.sequence) l
    → get_elem? (insert_sequence x l) (earlier x.sequence l) ≡ some x
insert_self x [] s d = refl
insert_self x (y ∷ l) s d = elim (Bool-cases (leb x.sequence y.sequence)) [
  | inl e ↦ rw (
    e,
    earlier_none x.sequence (y ∷ l)
        (leb→le _ _ e, All-weaken x.sequence y.sequence l (leb→le _ _ e) s.0),
  )
  | inr e ↦ ground (arith, insert_self x l s.1 d.1)
]

insert_other :
    (x y : Entry) (l : List Entry)
    → IsSorted l
    → y.sequence ≢ x.sequence
    → get_elem? l (earlier x.sequence l) ≡ some x
    → get_elem? (insert_sequence y l) (earlier x.sequence (y ∷ l)) ≡ some x
insert_other x y [] s d e = cc
insert_other x y (z ∷ l) s d e = elim (Bool-cases (leb y.sequence z.sequence)) [
  | inl le ↦ rw le (before le (Bool-cases (ltb y.sequence x.sequence)))
  | inr gt ↦ rw gt (after (insert_other x y l s.1 d) gt (Bool-cases (ltb z.sequence x.sequence)))
]
  where
    none_before : x.sequence ≤ z.sequence → earlier x.sequence (z ∷ l) ≡ 0
    none_before h = earlier_none x.sequence (z ∷ l) (h, All-weaken x.sequence z.sequence l h s.0)

    -- then `x` is the head
    head : x.sequence ≤ z.sequence → some z ≡ some x
    head h = ap (get_elem? (z ∷ l)) (sym (none_before h)) ∙ e

    before :
        leb y.sequence z.sequence ≡ true
        → (ltb y.sequence x.sequence ≡ true) ⊎ (ltb y.sequence x.sequence ≡ false)
        → get_elem? (y ∷ z ∷ l) (earlier x.sequence (y ∷ z ∷ l)) ≡ some x
    before le (inl lt) = rw lt e
    before le (inr ge) =
        let h : x.sequence ≤ z.sequence = omega tests in
        absurd (omega (tests, d, ap (λ (w : Entry). w.sequence) (some-injective _ _ (head h))))

    after :
        (get_elem? l (earlier x.sequence l) ≡ some x
          → get_elem? (insert_sequence y l) (earlier x.sequence (y ∷ l)) ≡ some x)
        → leb y.sequence z.sequence ≡ false
        → (ltb z.sequence x.sequence ≡ true) ⊎ (ltb z.sequence x.sequence ≡ false)
        → get_elem? (z ∷ insert_sequence y l) (earlier x.sequence (y ∷ z ∷ l)) ≡ some x
    after rest gt (inl lt) = ground (arith, rest)
    after rest gt (inr ge) = ground (arith, head, none_before)

-- In a sorted list of distinct sequences an entry stands behind those of a smaller sequence.
pub sort-rank :
    (l : List Entry) (i : ℕ) (x : Entry)
    → Distinct l
    → get_elem? l i ≡ some x
    → get_elem? (sort_sequence l) (earlier x.sequence l) ≡ some x
unfolding sort_sequence
sort-rank [] i x d e = cc
sort-rank (y ∷ l) zero x d e =
    let y=x : y ≡ x = some-injective _ _ e in
    ground (
      arith,
      y=x,
      earlier-sort y.sequence l,
      insert_self y (sort_sequence l) (sort-IsSorted l) (sort-All _ l d.0),
    )
sort-rank (y ∷ l) (suc i) x d e = ground (
  arith,
  earlier-sort x.sequence l,
  insert_other x y (sort_sequence l) (sort-IsSorted l) (differs y x (get_elem?-All _ l i x d.0 e))
      (rw earlier-sort (sort-rank l i x d.1 e)),
)
  where
    differs : (y x : Entry) → x.sequence ≢ y.sequence → y.sequence ≢ x.sequence
    differs y x h e = h (sym e)

pub keep-Distinct : (p : Entry → Bool) (l : List Entry) → Distinct l → Distinct (keep p l)
keep-Distinct p [] d = tt
keep-Distinct p (x ∷ l) d = elim (Bool-cases (p x)) [
  | inl e ↦ rw e (keep-All _ p l d.0, keep-Distinct p l d.1)
  | inr e ↦ rw e (keep-Distinct p l d.1)
]

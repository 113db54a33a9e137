-- ===== src/Registry/Fresh.antt =====
-- The entries that `_clean_owners` keeps.
use kilix_system_monitor.Prelude.{
  ℕ, zero, suc, ◌+◌, ◌≡◌, ◌≤◌, refl, subst, inl, inr, Bool-cases, Option, none, some,
  some-injective, List, [], ◌∷◌, ◌==◌, All, String, arith,
}
use kilix_system_monitor.Prelude.Int.{ℤ, pos, negsuc}
use kilix_system_monitor.Json.{
  Json, arr, obj, Items, nil, cons, Fields, end, field, get, type_error, value_error,
  overflow_error, state_unavailable, state_missing, snapshot_invalid, redaction_violation, Outcome,
  ok, raised, ◌>>=◌, >>=-elim, Conversions, to_int,
}
use kilix_system_monitor.Wire.Read.{catching, take_items}
use kilix_system_monitor.Registry.{
  Owner, insert, sorted_set, if_positive, positive_pid, prepend, pids_of, clean_roots,
  entry_numbers, fresh_entry, with_roots, clean_entry, put_owner, put_some, clean_from,
  clean_owners, take_fields, max_owners, max_roots_per_owner,
}

abbrev pub AllPositive : List ℕ → Type 0
AllPositive pids = All (λ p. 1 ≤ p) pids

-- A positive process, updated at a positive time that is not too old, with positive roots.
pub record IsFresh (now stale : ℕ) (o : Owner) : Type 0 where
  pub pid : 1 ≤ o.pid
  pub updated : 1 ≤ o.updated_ns
  pub fresh : now ≤ stale + o.updated_ns
  pub roots : AllPositive o.roots

pub All-insert : (P : ℕ → Type 0) (x : ℕ) (xs : List ℕ) → P x → All P xs → All P (insert x xs)
unfolding insert
All-insert P x [] px h = (px, tt)
All-insert P x (y ∷ ys) px (py, h) = ground (arith, All-insert P x ys px h)

sorted_set-All : (P : ℕ → Type 0) (xs : List ℕ) → All P xs → All P (sorted_set xs)
unfolding sorted_set
sorted_set-All P [] h = tt
sorted_set-All P (x ∷ xs) (px, h) = All-insert P x (sorted_set xs) px (sorted_set-All P xs h)

if_positive-some : (z : ℤ) (p : ℕ) → if_positive z ≡ some p → 1 ≤ p
if_positive-some (pos zero) p h = cc
if_positive-some (pos (suc n)) p h = let same : suc n ≡ p = cc in omega (arith, same)
if_positive-some (negsuc n) p h = cc

ok-eq : {A : Type 0} (a b : A) → ok a ≡ ok b → a ≡ b
ok-eq a b h = cc

none-ne-some : {A : Type 0} (a : A) → ¬ (◌≡◌ {A = Outcome (Option A)} (ok none) (ok (some a)))
none-ne-some a h = cc

-- What a conversion that may be caught gives.
catching-some :
    {A : Type 0} (m : Outcome (Option A)) (a : A) → catching none m ≡ ok (some a) → m ≡ ok (some a)
catching-some (ok x) a h = h
catching-some (raised type_error) a h = cc
catching-some (raised value_error) a h = cc
catching-some (raised overflow_error) a h = cc
catching-some (raised state_unavailable) a h = cc
catching-some (raised state_missing) a h = cc
catching-some (raised snapshot_invalid) a h = cc
catching-some (raised redaction_violation) a h = cc

module _ (c : Conversions) where
  prepend-AllPositive :
      (value : Json) (found : Option ℕ) (pids : List ℕ)
      → positive_pid c value ≡ ok found
      → AllPositive pids
      → AllPositive (prepend found pids)
  unfolding positive_pid
  prepend-AllPositive value none pids e h = h
  prepend-AllPositive value (some p) pids e h = (
    >>=-elim (to_int c value) (λ z. ok (if_positive z)) (some p) (catching-some _ p e)
        λ z _ e1. if_positive-some z p (ok-eq (if_positive z) (some p) e1),
    h,
  )

  pids_of-AllPositive :
      (items : Items) (pids : List ℕ) → pids_of c items ≡ ok pids → AllPositive pids
  unfolding pids_of
  pids_of-AllPositive nil pids h = subst AllPositive (ok-eq [] pids h) tt
  pids_of-AllPositive (cons value items) pids h =
      >>=-elim (positive_pid c value) (λ pid. pids_of c items >>= λ rest. ok (prepend pid rest))
        pids h
        λ pid e1 t1.
          >>=-elim (pids_of c items) (λ rest. ok (prepend pid rest)) pids t1
            λ rest e2 t2.
              subst AllPositive (ok-eq (prepend pid rest) pids t2)
                (prepend-AllPositive value pid rest e1 (pids_of-AllPositive items rest e2))

  clean_roots-AllPositive :
      (items : Items) (pids : List ℕ) → clean_roots c items ≡ ok pids → AllPositive pids
  clean_roots-AllPositive items pids h =
      >>=-elim (pids_of c (take_items max_roots_per_owner items)) (λ found. ok (sorted_set found))
        pids h
        λ found e1 t1. subst AllPositive (ok-eq (sorted_set found) pids t1) (
          sorted_set-All (λ p. 1 ≤ p) found
            (pids_of-AllPositive (take_items max_roots_per_owner items) found e1))

  fresh_entry-some :
      (now stale : ℕ) (both : Option (ℤ × ℤ)) (o u : ℕ)
      → fresh_entry c now stale both ≡ some (o, u)
      → (1 ≤ o) × (1 ≤ u) × (now ≤ stale + u)
  fresh_entry-some now stale none o u h = cc
  fresh_entry-some now stale (some (pos zero, y)) o u h = cc
  fresh_entry-some now stale (some (negsuc m, y)) o u h = cc
  fresh_entry-some now stale (some (pos (suc m), pos zero)) o u h = cc
  fresh_entry-some now stale (some (pos (suc m), negsuc n)) o u h = cc
  fresh_entry-some now stale (some (pos (suc m), pos (suc n))) o u h = ground arith

  with_roots-IsFresh :
      (now stale : ℕ) (found : Option (ℕ × ℕ)) (value : Json) (o : Owner)
      → ((p u : ℕ) → found ≡ some (p, u) → (1 ≤ p) × (1 ≤ u) × (now ≤ stale + u))
      → with_roots c found value ≡ ok (some o)
      → IsFresh now stale o
  with_roots-IsFresh now stale (some (p, u)) (arr items) o fits h =
      >>=-elim (clean_roots c items)
        (λ roots. ok (some (record { pid = p; updated_ns = u; roots = roots }))) (some o) h
        λ roots e1 t1.
          let (at_p, at_u, recent) = fits p u refl in
          subst (IsFresh now stale)
            (some-injective _ _
              (ok-eq (some (record { pid = p; updated_ns = u; roots = roots })) (some o) t1))
            (record {
              pid = at_p;
              updated = at_u;
              fresh = recent;
              roots = clean_roots-AllPositive items roots e1;
            })
  with_roots-IsFresh now stale found value o fits h = absurd (none-ne-some o h)

  abbrev AllFresh : ℕ → ℕ → List Owner → Type 0
  AllFresh now stale owners = All (IsFresh now stale) owners

  put_owner-AllFresh :
      (now stale : ℕ) (o : Owner) (owners : List Owner)
      → IsFresh now stale o
      → AllFresh now stale owners
      → AllFresh now stale (put_owner o owners)
  put_owner-AllFresh now stale o [] h all = (h, tt)
  put_owner-AllFresh now stale o (q ∷ qs) h (hq, all) = elim (Bool-cases (o.pid == q.pid)) [
    | inl e ↦ rw e (h, all)
    | inr e ↦ rw e (hq, put_owner-AllFresh now stale o qs h all)
  ]

  put_some-AllFresh :
      (now stale : ℕ) (key : String) (value : Json) (o : Option Owner) (owners : List Owner)
      → clean_entry c now stale key value ≡ ok o
      → AllFresh now stale owners
      → AllFresh now stale (put_some c o owners)
  put_some-AllFresh now stale key value none owners e all = all
  put_some-AllFresh now stale key (obj entry) (some o) owners e all =
      >>=-elim (entry_numbers c key entry)
        (λ both. with_roots c (fresh_entry c now stale both) (get "roots" entry)) (some o) e
        λ both _ e1.
          put_owner-AllFresh now stale o owners
            (with_roots-IsFresh now stale (fresh_entry c now stale both) (get "roots" entry) o
              (fresh_entry-some now stale both) e1)
            all
  put_some-AllFresh now stale key value (some o) owners e all = absurd (none-ne-some o e)

  clean_from-AllFresh :
      (now stale : ℕ) (owners : List Owner) (fields : Fields) (kept : List Owner)
      → clean_from c now stale owners fields ≡ ok kept
      → AllFresh now stale owners
      → AllFresh now stale kept
  clean_from-AllFresh now stale owners end kept h all =
      subst (AllFresh now stale) (ok-eq owners kept h) all
  clean_from-AllFresh now stale owners (field key value fields) kept h all =
      >>=-elim (clean_entry c now stale key value)
        (λ owner. clean_from c now stale (put_some c owner owners) fields) kept h
        λ owner e1 t1.
          clean_from-AllFresh now stale (put_some c owner owners) fields kept t1
            (put_some-AllFresh now stale key value owner owners e1 all)

  pub clean_owners-AllFresh :
      (now stale : ℕ) (fields : Fields) (owners : List Owner)
      → clean_owners c now stale fields ≡ ok owners
      → AllFresh now stale owners
  unfolding clean_owners
  clean_owners-AllFresh now stale fields owners h =
      clean_from-AllFresh now stale [] (take_fields max_owners fields) owners h tt

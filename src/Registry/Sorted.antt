-- ===== src/Registry/Sorted.antt =====
-- What the registry tells the sampler.
use kilix_system_monitor.Prelude.{
  ℕ, ◌≡◌, ◌<◌, refl, sym, ap, ◌∙◌, subst, Bool, true, false, ◌||◌, List, [], ◌∷◌, ◌++◌, ltb, ◌==◌,
  any, All, if◌then◌else◌, arith,
}
use kilix_system_monitor.Json.{Fields, ◌>>=◌, ok, >>=-elim, Conversions}
use kilix_system_monitor.ProcessTree.{mem}
use kilix_system_monitor.Registry.Fresh.{IsFresh, All-insert, clean_owners-AllFresh}
use kilix_system_monitor.Registry.{
  Loaded, Owner, decode, insert, sorted_set, clean_owners, all_roots, roots,
}

ok-eq : {A : Type 0} (a b : A) → ok a ≡ ok b → a ≡ b
ok-eq a b h = cc

-- Each element is less than those behind it.
abbrev pub IsIncreasing : List ℕ → Type 0
IsIncreasing [] = Unit
IsIncreasing (x ∷ xs) = All (λ y. x < y) xs × IsIncreasing xs

mem-insert : (p x : ℕ) (xs : List ℕ) → mem p (insert x xs) ≡ ((x == p) || mem p xs)
unfolding insert
mem-insert p x [] = refl
mem-insert p x (y ∷ ys) = ground (arith, mem-insert p x ys)

All-below : (x y : ℕ) (ys : List ℕ) → x < y → All (λ z. y < z) ys → All (λ z. x < z) ys
All-below x y [] h all = tt
All-below x y (z ∷ ys) h (hz, all) = (omega (arith, h, hz), All-below x y ys h all)

-- The three places of an element, by the two tests of `insert`.
place-IsIncreasing :
    (same less : Bool) (x y : ℕ) (ys rest : List ℕ)
    → (less ≡ true → x < y)
    → (same ≡ false → less ≡ false → y < x)
    → IsIncreasing (y ∷ ys)
    → IsIncreasing rest
    → (y < x → All (λ z. y < z) rest)
    → IsIncreasing (if same then y ∷ ys else if less then x ∷ y ∷ ys else y ∷ rest)
place-IsIncreasing true less x y ys rest lt gt h inc all = h
place-IsIncreasing false true x y ys rest lt gt (h, below) inc all =
    ((lt refl, All-below x y ys (lt refl) h), (h, below))
place-IsIncreasing false false x y ys rest lt gt h inc all = (all (gt refl refl), inc)

ltb-lt : (x y : ℕ) → ltb x y ≡ true → x < y
ltb-lt x y h = ground arith

neither-lt : (x y : ℕ) → (x == y) ≡ false → ltb x y ≡ false → y < x
neither-lt x y h1 h2 = ground arith

insert-IsIncreasing : (x : ℕ) (xs : List ℕ) → IsIncreasing xs → IsIncreasing (insert x xs)
unfolding insert
insert-IsIncreasing x [] h = (tt, tt)
insert-IsIncreasing x (y ∷ ys) (h, inc) =
    place-IsIncreasing (x == y) (ltb x y) x y ys (insert x ys) (ltb-lt x y) (neither-lt x y)
      (h, inc) (insert-IsIncreasing x ys inc) (λ lt. All-insert (λ z. y < z) x ys lt h)

sorted_set-IsIncreasing : (xs : List ℕ) → IsIncreasing (sorted_set xs)
unfolding sorted_set
sorted_set-IsIncreasing [] = tt
sorted_set-IsIncreasing (x ∷ xs) =
    insert-IsIncreasing x (sorted_set xs) (sorted_set-IsIncreasing xs)

mem-sorted_set : (p : ℕ) (xs : List ℕ) → mem p (sorted_set xs) ≡ mem p xs
unfolding sorted_set
mem-sorted_set p [] = refl
mem-sorted_set p (x ∷ xs) =
    mem-insert p x (sorted_set xs) ∙ ap (λ b. (x == p) || b) (mem-sorted_set p xs)

mem-append : (p : ℕ) (xs ys : List ℕ) → mem p (xs ++ ys) ≡ (mem p xs || mem p ys)
mem-append p [] ys = refl
mem-append p (x ∷ xs) ys = ground (arith, mem-append p xs ys)

mem-all_roots :
    (p : ℕ) (owners : List Owner)
    → mem p (all_roots owners) ≡ any (λ o. mem p (Owner.roots o)) owners
mem-all_roots p [] = refl
mem-all_roots p (o ∷ owners) =
    mem-append p o.roots (all_roots owners) ∙ ap (λ b. mem p o.roots || b) (mem-all_roots p owners)

-- `PaneRegistry.roots` returns an increasing list of exactly the processes that an owner of the
-- cleaned registry lists. Each such owner is a positive process, was updated at most the stale time
-- ago, and lists positive processes only.
pub roots-IsIncreasing :
    (c : Conversions) (now stale : ℕ) (file : Loaded) (found : List ℕ)
    → roots c now stale file ≡ ok found
    → IsIncreasing found
      × ((entries : Fields) × (owners : List Owner) × (decode file ≡ ok entries)
          × (clean_owners c now stale entries ≡ ok owners)
          × All (IsFresh now stale) owners
          × ((pid : ℕ) → mem pid found ≡ any (λ o. mem pid (Owner.roots o)) owners))
unfolding roots
roots-IsIncreasing c now stale file found h =
    >>=-elim (decode file)
      (λ entries. clean_owners c now stale entries >>= λ owners. ok (sorted_set (all_roots owners)))
      found h
      λ entries read h1.
        >>=-elim (clean_owners c now stale entries) (λ owners. ok (sorted_set (all_roots owners)))
          found h1
          λ owners e is.
            let same : sorted_set (all_roots owners) ≡ found =
              ok-eq (sorted_set (all_roots owners)) found is in
            (
              subst IsIncreasing same (sorted_set-IsIncreasing (all_roots owners)),
              (
                entries,
                owners,
                read,
                e,
                clean_owners-AllFresh c now stale entries owners e,
                λ pid.
                    ap (mem pid) (sym same)
                    ∙ mem-sorted_set pid (all_roots owners)
                    ∙ mem-all_roots pid owners,
              ),
            )

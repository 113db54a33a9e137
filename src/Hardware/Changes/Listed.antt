-- ===== src/Hardware/Changes/Listed.antt =====
-- What `snapshot_changes` lists.
use kilix_system_monitor.Prelude.{
  ◌≡◌, ◌↔◌, ◌⊎◌, inl, inr, refl, sym, ap, ◌∙◌, subst, String, Bool, true, false, List, [], ◌∷◌,
}
use kilix_system_monitor.Json.{Json, Fields, end, field, get, ok, >>=-elim}
use kilix_system_monitor.Json.Equal.{equal}
use kilix_system_monitor.Hardware.Snapshot.{Library, validate_snapshot}
use kilix_system_monitor.Hardware.Changes.{Change, unless, changes, projection, snapshot_changes}

-- The dictionary has this entry.
abbrev pub IsEntry : String → Json → Fields → Type 0
IsEntry k v end = ⊥
IsEntry k v (field key value fields) = ((k ≡ key) × (v ≡ value)) ⊎ IsEntry k v fields

-- A key of the first dictionary, its value there, and a value in the other that is not equal.
abbrev pub IsChange : Fields → Fields → Change → Type 0
IsChange before after c =
    IsEntry c.name c.before before × (c.after ≡ get c.name after) × (equal c.before c.after ≡ false)

abbrev pub Among : Change → List Change → Type 0
Among c [] = ⊥
Among c (d ∷ ds) = (c ≡ d) ⊎ Among c ds

unless-cases :
    (b : Bool) (c d : Change) (rest : List Change)
    → Among c (unless b d rest)
    → ((b ≡ false) × (c ≡ d)) ⊎ Among c rest
unless-cases true c d rest m = inr m
unless-cases false c d rest (inl e) = inl (refl, e)
unless-cases false c d rest (inr m) = inr m

true-ne-false : ¬ (◌≡◌ {A = Bool} true false)
true-ne-false h = cc

unless-here : (b : Bool) (d : Change) (rest : List Change) → b ≡ false → Among d (unless b d rest)
unless-here true d rest h = absurd (true-ne-false h)
unless-here false d rest h = inl refl

unless-there :
    (b : Bool) (c d : Change) (rest : List Change) → Among c rest → Among c (unless b d rest)
unless-there true c d rest m = m
unless-there false c d rest m = inr m

abbrev at_head : String → Json → Fields → Change
at_head key value after = record { name = key; before = value; after = get key after }

listed :
    (before after : Fields) (c : Change) → Among c (changes before after) → IsChange before after c
unfolding changes
listed end after c m = absurd m
listed (field key value fields) after c m =
    elim (unless-cases (equal value (get key after)) c (at_head key value after)
      (changes fields after) m) [
        | inl (differs, e) ↦
            subst (IsChange (field key value fields) after) (sym e)
              (inl (refl, refl), refl, differs)
        | inr rest ↦
            let (entry, same, differs) = listed fields after c rest in (inr entry, same, differs)
      ]

Change-eq : (c d : Change) → c.name ≡ d.name → c.before ≡ d.before → c.after ≡ d.after → c ≡ d
Change-eq c d e1 e2 e3 = λ i. record { name = e1 i; before = e2 i; after = e3 i }

found :
    (before after : Fields) (c : Change) → IsChange before after c → Among c (changes before after)
unfolding changes
found end after c (m, _, _) = absurd m
found (field key value fields) after c (inl (k, v), same, differs) =
    subst
      (λ d.
        Among d
          (unless (equal value (get key after)) (at_head key value after) (changes fields after)))
      (sym (Change-eq c (at_head key value after) k v (same ∙ ap (λ n. get n after) k)))
      (unless-here (equal value (get key after)) (at_head key value after) (changes fields after) (
        ap (λ w. equal value w) (sym (same ∙ ap (λ n. get n after) k))
        ∙ ap (λ w. equal w c.after) (sym v)
        ∙ differs))
found (field key value fields) after c (inr e, same, differs) =
    unless-there (equal value (get key after)) c (at_head key value after) (changes fields after)
      (found fields after c (e, same, differs))

ok-eq : {A : Type 0} (a b : A) → ok a ≡ ok b → a ≡ b
ok-eq a b h = cc

-- What `snapshot_changes` returns lists exactly the keys of the projections of both snapshots under which
-- they differ, each with its value before and its value after.
pub snapshot_changes-IsChange :
    (lib : Library) (previous current : Json) (listing : List Change)
    → snapshot_changes lib previous current ≡ ok listing
    → (earlier : Fields) × (later : Fields) × (before : Fields) × (after : Fields)
      × (validate_snapshot lib previous ≡ ok earlier)
      × (validate_snapshot lib current ≡ ok later)
      × (projection earlier ≡ ok before)
      × (projection later ≡ ok after)
      × ((c : Change) → Among c listing ↔ IsChange before after c)
unfolding snapshot_changes
snapshot_changes-IsChange lib previous current listing h =
    >>=-elim (validate_snapshot lib previous) _ listing h λ earlier e1 t1.
      >>=-elim (projection earlier) _ listing t1 λ before e2 t2.
        >>=-elim (validate_snapshot lib current) _ listing t2 λ later e3 t3.
          >>=-elim (projection later) (λ after. ok (changes before after)) listing t3
            λ after e4 t4.
              let same : changes before after ≡ listing = ok-eq (changes before after) listing t4 in
              (
                earlier,
                later,
                before,
                after,
                e1,
                e3,
                e2,
                e4,
                λ c.
                    subst (λ l. Among c l ↔ IsChange before after c) same
                      (listed before after c, found before after c),
              )

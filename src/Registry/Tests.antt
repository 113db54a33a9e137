-- ===== src/Registry/Tests.antt =====
-- A registry of three entries, of which one is kept.
use kilix_system_monitor.Prelude.{
  ℕ, ◌≡◌, refl, true, none, some, List, [], ◌∷◌, any, All, str_eq, if◌then◌else◌,
}
use kilix_system_monitor.Prelude.Int.{pos, negsuc}
use kilix_system_monitor.Json.{
  Json, null, int, float, arr, obj, nil, cons, Fields, end, field, infinite, ok, raised,
  overflow_error, value_error, unit, Conversions,
}
use kilix_system_monitor.Json.Equal.{equal}
use kilix_system_monitor.ProcessTree.{mem}
use kilix_system_monitor.Registry.{
  Loaded, loaded, failed, Owner, decode, positive_pid, pids_of, insert, sorted_set, clean_owners,
  update, roots,
}
use kilix_system_monitor.Registry.Fresh.{IsFresh}
use kilix_system_monitor.Registry.Sorted.{IsIncreasing, roots-IsIncreasing}

abbrev conversions : Conversions
conversions = record {
  float_of_int = λ z. none;
  float_of_text = λ s. none;
  int_of_text =
      λ s. if str_eq s "7" then some (pos 7) else if str_eq s "8" then some (pos 8) else none;
  text_of = λ value. "7";
}

abbrev entry : Json → Json → Json
entry updated found = obj (field "updated_ns" updated (field "roots" found end))

abbrev listed : Json
listed = arr (
    cons (int (pos 3))
      (cons (int (pos 1)) (cons (int (negsuc 0)) (cons (int (pos 3)) (cons null nil)))))

abbrev registry : Fields → Loaded
registry owners = loaded (obj (field "schema" (int (pos 1)) (field "owners" (obj owners) end)))

-- The second entry has no number, the third is too old.
abbrev file : Loaded
file = registry (
    field "7" (entry (int (pos 90)) listed) (
      field "x" (entry (int (pos 90)) listed)
        (field "8" (entry (int (pos 10)) (arr (cons (int (pos 4)) nil))) end)))

file_roots : roots conversions 100 20 file ≡ ok (1 ∷ 3 ∷ [])
unfolding unit equal decode positive_pid pids_of insert sorted_set clean_owners roots
file_roots = refl

roots-IsIncreasing_example :
    IsIncreasing (1 ∷ 3 ∷ [])
    × ((entries : Fields) × (owners : List Owner) × (decode file ≡ ok entries)
        × (clean_owners conversions 100 20 entries ≡ ok owners)
        × All (IsFresh 100 20) owners
        × ((pid : ℕ) → mem pid (1 ∷ 3 ∷ []) ≡ any (λ o. mem pid (Owner.roots o)) owners))
roots-IsIncreasing_example = roots-IsIncreasing conversions 100 20 file (1 ∷ 3 ∷ []) file_roots

abbrev new_entry : Fields
new_entry = field "schema" (int (pos 1)) (
    field "owners" (obj (field "7" (entry (int (pos 100)) (arr (cons (int (pos 5)) nil))) end)) end)

update_replaces_the_entry :
    update conversions
      (λ document. 60)
      (λ document. loaded (obj document))
      100
      20
      (int (pos 7))
      (cons (int (pos 5)) nil)
      file
    ≡ ok (loaded (obj new_entry))
unfolding unit equal decode positive_pid pids_of insert sorted_set clean_owners update
update_replaces_the_entry = refl

no_owner :
    update conversions
      (λ document. 60)
      (λ document. loaded (obj document))
      100
      20
      (int (negsuc 6))
      nil
      file
    ≡ raised value_error
unfolding positive_pid update
no_owner = refl

-- An integer of too many digits.
failed_file : roots conversions 100 20 (failed value_error) ≡ raised value_error
unfolding decode roots
failed_file = refl

-- A file with an infinite time is never cleaned.
infinite_time :
    roots conversions 100 20 (registry (field "7" (entry (float (infinite true)) listed) end))
    ≡ raised overflow_error
unfolding unit equal decode clean_owners roots
infinite_time = refl

-- ===== src/Hardware/Cache/Tidy.antt =====
-- The temporary file of a write.
use kilix_system_monitor.Prelude.{
  ◌≡◌, refl, ap, ℕ, Bool, true, false, List, none, some, if◌then◌else◌,
}
use kilix_system_monitor.Json.{Json, Outcome, ok, raised}
use kilix_system_monitor.Hardware.Snapshot.{Library}
use kilix_system_monitor.Hardware.Cache.{File, Root, Store, open_private_directory}
use kilix_system_monitor.Hardware.Cache.Write.{
  Answers, cleaned, fill, renamed, replaced, created, inspect, payload_of, persist, entered,
  written, write_snapshot,
}

abbrev pub IsTidy : Store × Outcome (Unit {0}) → Type 0
IsTidy (after, result) = after.temporary ≡ none

cleaned-none :
    (answers : Answers) (file : File) (store : Store)
    → answers.unlink_works ≡ true
    → (cleaned answers file store).temporary ≡ none
cleaned-none answers file store h = ap (λ b. if b then none else some file) h

renamed-IsTidy :
    (works : Bool) (answers : Answers) (file : File) (store : Store)
    → answers.unlink_works ≡ true
    → IsTidy (renamed works answers file store)
renamed-IsTidy false answers file store h = cleaned-none answers file store h
renamed-IsTidy true answers file store h = refl

replaced-IsTidy :
    (answers : Answers) (made : File × Bool) (store : Store)
    → answers.unlink_works ≡ true
    → IsTidy (replaced answers made store)
replaced-IsTidy answers (file, false) store h = cleaned-none answers file store h
replaced-IsTidy answers (file, true) store h =
    renamed-IsTidy answers.replace_works answers file store h

created-IsTidy :
    (works : Bool) (answers : Answers) (payload : List ℕ) (store : Store)
    → answers.unlink_works ≡ true
    → store.temporary ≡ none
    → IsTidy (created works answers payload store)
created-IsTidy false answers payload store h tidy = tidy
created-IsTidy true answers payload store h tidy =
    replaced-IsTidy answers (fill answers payload) store h

module _ (lib : Library) where
  persist-IsTidy :
      (answers : Answers) (payload : List ℕ) (store : Store) (seen : Outcome (Unit {0}))
      → answers.unlink_works ≡ true
      → store.temporary ≡ none
      → IsTidy (persist lib answers payload store seen)
  persist-IsTidy answers payload store (raised e) h tidy = tidy
  persist-IsTidy answers payload store (ok _) h tidy =
      created-IsTidy answers.create_works answers payload store h tidy

  entered-IsTidy :
      (answers : Answers) (payload : List ℕ) (store : Store) (opened : Root × Outcome (Unit {0}))
      → answers.unlink_works ≡ true
      → store.temporary ≡ none
      → IsTidy (entered lib answers payload store opened)
  entered-IsTidy answers payload store (root, raised e) h tidy = tidy
  entered-IsTidy answers payload store (root, ok _) h tidy =
      persist-IsTidy answers payload (record store { root = root })
        (inspect lib answers store.cache) h tidy

  written-IsTidy :
      (answers : Answers) (store : Store) (payload : Outcome (List ℕ))
      → answers.unlink_works ≡ true
      → store.temporary ≡ none
      → IsTidy (written lib answers store payload)
  written-IsTidy answers store (raised e) h tidy = tidy
  written-IsTidy answers store (ok payload) h tidy =
      entered-IsTidy answers payload store (open_private_directory true store.root) h tidy

  -- Whether it raises or not, a write leaves no temporary file where there was none before and
  -- `os.unlink` works.
  pub write_snapshot-IsTidy :
      (answers : Answers) (store : Store) (document : Json)
      → answers.unlink_works ≡ true
      → store.temporary ≡ none
      → IsTidy (write_snapshot lib answers store document)
  unfolding write_snapshot
  write_snapshot-IsTidy answers store document h tidy =
      written-IsTidy answers store (payload_of lib document) h tidy

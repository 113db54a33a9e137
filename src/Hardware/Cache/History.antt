-- ===== src/Hardware/Cache/History.antt =====
-- Any number of writes, against a cache that holds at most one document.
use kilix_system_monitor.Prelude.{
  ℕ, ◌≡◌, ◌⊎◌, inl, inr, sym, ◌∙◌, subst, true, List, [], ◌∷◌, All, Option, none, some,
}
use kilix_system_monitor.Json.{obj, Fields, Error, Outcome, ok, raised}
use kilix_system_monitor.Hardware.Snapshot.{Library, duplicate_safe_object, canonical_bytes}
use kilix_system_monitor.Hardware.Cache.{Store, parse_file}
use kilix_system_monitor.Hardware.Cache.Write.{Answers, private_file, write_snapshot}
use kilix_system_monitor.Hardware.Cache.Replaced.{IsKept, IsReplaced, write_snapshot-IsReplaced}
use kilix_system_monitor.Hardware.Cache.Back.{parse_file-canonical_bytes}

-- The specification: a write that raises may leave the document that was held, and every other
-- write leaves its own.
pub data Holds : Option Fields → List (Fields × Outcome (Unit {0})) → Option Fields → Type 0 where
  at_end : (held : Option Fields) → Holds held [] held
  keeps :
      (held final : Option Fields) (document : Fields) (e : Error)
      (writes : List (Fields × Outcome (Unit {0})))
      → Holds held writes final
      → Holds held ((document, raised e) ∷ writes) final
  takes :
      (held final : Option Fields) (document : Fields) (result : Outcome (Unit {0}))
      (writes : List (Fields × Outcome (Unit {0})))
      → Holds (some document) writes final
      → Holds held ((document, result) ∷ writes) final

module _ (lib : Library) where
  -- The store behind the writes, in their order.
  unfoldable pub store_after : Store → List (Answers × Fields) → Store
  store_after store [] = store
  store_after store ((answers, document) ∷ writes) =
      store_after ((write_snapshot lib answers store (obj document)).0) writes

  -- What each of the writes returned or raised.
  unfoldable pub results : Store → List (Answers × Fields) → List (Fields × Outcome (Unit {0}))
  results store [] = []
  results store ((answers, document) ∷ writes) =
      let end = write_snapshot lib answers store (obj document) in
      (document, end.1) ∷ results end.0 writes

  -- The cache is absent, or is a private file that reads as the document.
  abbrev pub Shows : Store → Option Fields → Type 0
  Shows store none = store.cache ≡ none
  Shows store (some document) =
      (payload : List ℕ) × (store.cache ≡ some (private_file payload))
      × (parse_file lib true (private_file payload) ≡ ok document)

  -- `json.loads` gives the document back from its canonical bytes.
  abbrev pub IsLoaded : Answers × Fields → Type 0
  IsLoaded (answers, document) =
      (payload : List ℕ) × (canonical_bytes lib document ≡ ok payload)
      × (lib.loads duplicate_safe_object payload ≡ some (obj document))

  Shows-kept :
      (held : Option Fields) (before after : Store)
      → after.cache ≡ before.cache
      → Shows before held
      → Shows after held
  Shows-kept none before after same h = same ∙ h
  Shows-kept (some document) before after same (payload, cache, parsed) =
      (payload, same ∙ cache, parsed)

  Shows-IsReplaced :
      (answers : Answers) (document : Fields) (end : Store × Outcome (Unit {0}))
      → IsLoaded (answers, document)
      → IsReplaced lib answers (obj document) end
      → Shows end.0 (some document)
  Shows-IsReplaced answers document end (payload, canonical, loads) (bytes, made, cache, _, _) =
      (bytes, cache, parse_file-canonical_bytes lib document bytes payload canonical loads made)

  step :
      (held : Option Fields) (store : Store) (answers : Answers) (document : Fields)
      (end : Store × Outcome (Unit {0})) (writes : List (Answers × Fields))
      → Shows store held
      → IsLoaded (answers, document)
      → IsKept store end ⊎ IsReplaced lib answers (obj document) end
      → ((now : Option Fields)
          → Shows end.0 now
          → (final : Option Fields) × Holds now (results end.0 writes) final
            × Shows (store_after end.0 writes) final)
      → (final : Option Fields) × Holds held ((document, end.1) ∷ results end.0 writes) final
        × Shows (store_after end.0 writes) final
  step held store answers document (after, result) writes shows loaded (inl (same, (e, raises)))
        rest =
      let (final, holds, shown) = rest held (Shows-kept held store after same shows) in
      (
        final,
        subst (λ r. Holds held ((document, r) ∷ results after writes) final) (sym raises)
            (keeps held final document e (results after writes) holds),
        shown,
      )
  step held store answers document end writes shows loaded (inr whole) rest =
      let (final, holds, shown) =
        rest (some document) (Shows-IsReplaced answers document end loaded whole) in
      (final, takes held final document end.1 (results end.0 writes) holds, shown)

  -- Any writes, whatever the operating system answers to each: the cache behind them shows a
  -- document that the specification allows for their results, where `json.loads` gives each document back.
  pub store_after-Holds :
      (held : Option Fields) (store : Store) (writes : List (Answers × Fields))
      → Shows store held
      → All IsLoaded writes
      → (final : Option Fields) × Holds held (results store writes) final
        × Shows (store_after store writes) final
  unfolding store_after results
  store_after-Holds held store [] shows loaded = (held, at_end held, shows)
  store_after-Holds held store ((answers, document) ∷ writes) shows (here, others) =
      step held store answers document (write_snapshot lib answers store (obj document)) writes
        shows here (write_snapshot-IsReplaced lib answers store (obj document))
        (λ now shown.
          store_after-Holds now ((write_snapshot lib answers store (obj document)).0) writes shown
            others)

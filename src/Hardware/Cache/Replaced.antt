-- ===== src/Hardware/Cache/Replaced.antt =====
-- The cache is replaced as a whole or not at all, and read back.
use kilix_system_monitor.Prelude.{
  ℕ, zero, suc, ◌≡◌, ◌⊎◌, inl, inr, refl, sym, ap, ◌∙◌, subst, Bool, true, false, List, [], ◌∷◌,
  ◌++◌, Option, none, some,
}
use kilix_system_monitor.Json.{Json, Error, Outcome, ok, raised, state_unavailable}
use kilix_system_monitor.Hardware.Snapshot.{Library}
use kilix_system_monitor.Hardware.Cache.{File, Store, Root, accept, open_private_directory}
use kilix_system_monitor.Hardware.Cache.Write.{
  Answers, transfer, write_all, private_file, filled, fill, replaced, renamed, created, inspect,
  payload_of, persist, entered, written, write_snapshot,
}

false-ne-true : ¬ (◌≡◌ {A = Bool} false true)
false-ne-true h = cc

append_assoc : (xs : List ℕ) (y : ℕ) (zs : List ℕ) → ((xs ++ (y ∷ [])) ++ zs) ≡ (xs ++ (y ∷ zs))
append_assoc [] y zs = refl
append_assoc (x ∷ xs) y zs = ap (λ l. x ∷ l) (append_assoc xs y zs)

append_nil : (xs : List ℕ) → (xs ++ []) ≡ xs
append_nil [] = refl
append_nil (x ∷ xs) = ap (λ l. x ∷ l) (append_nil xs)

transfer-append :
    (n : ℕ) (written left : List ℕ)
    → ((transfer n written left).0 ++ (transfer n written left).1) ≡ (written ++ left)
transfer-append zero written [] = refl
transfer-append (suc n) written [] = refl
transfer-append zero written (x ∷ xs) = refl
transfer-append (suc n) written (x ∷ xs) =
    transfer-append n (written ++ (x ∷ [])) xs ∙ append_assoc written x xs

-- Where the loop of `os.write` ends well, the file holds all of the payload.
write_all-append :
    (answers : List (Option ℕ)) (written left : List ℕ)
    → (write_all answers written left).1 ≡ true
    → (write_all answers written left).0 ≡ (written ++ left)
unfolding write_all
write_all-append [] written [] h = sym (append_nil written)
write_all-append (a ∷ answers) written [] h = sym (append_nil written)
write_all-append [] written (x ∷ left) h = cc
write_all-append (none ∷ answers) written (x ∷ left) h = cc
write_all-append (some more ∷ answers) written (x ∷ left) h =
    write_all-append answers ((transfer (suc more) written (x ∷ left)).0)
      ((transfer (suc more) written (x ∷ left)).1) h
    ∙ transfer-append (suc more) written (x ∷ left)

filled-private_file :
    (fchmod : Bool) (wrote : List ℕ × Bool) (fsync : Bool) (payload : List ℕ)
    → (wrote.1 ≡ true → wrote.0 ≡ payload)
    → (filled fchmod wrote fsync).1 ≡ true
    → (filled fchmod wrote fsync).0 ≡ private_file payload
filled-private_file false (bytes, done) fsync payload whole h = absurd (false-ne-true h)
filled-private_file true (bytes, false) fsync payload whole h = absurd (false-ne-true h)
filled-private_file true (bytes, true) fsync payload whole h = ap private_file (whole refl)

-- The cache as it was, behind an exception.
abbrev pub IsKept : Store → Store × Outcome (Unit {0}) → Type 0
IsKept before (after, result) = (after.cache ≡ before.cache) × ((e : Error) × (result ≡ raised e))

module _ (lib : Library) where
  -- The cache is a private file of the document's canonical bytes, and no temporary file is left;
  -- only the last `os.fsync` may still fail.
  abbrev pub IsReplaced : Answers → Json → Store × Outcome (Unit {0}) → Type 0
  IsReplaced answers document (after, result) =
      (payload : List ℕ) × (payload_of lib document ≡ ok payload)
      × (after.cache ≡ some (private_file payload))
      × (after.temporary ≡ none)
      × (result ≡ accept answers.directory_fsync_works)

  renamed-whole :
      (works : Bool) (answers : Answers) (document : Json) (payload : List ℕ) (store : Store)
      → payload_of lib document ≡ ok payload
      → IsKept store (renamed works answers (private_file payload) store)
        ⊎ IsReplaced answers document (renamed works answers (private_file payload) store)
  renamed-whole false answers document payload store h = inl (refl, (state_unavailable, refl))
  renamed-whole true answers document payload store h = inr (payload, h, refl, refl, refl)

  replaced-whole :
      (answers : Answers) (document : Json) (payload : List ℕ) (made : File × Bool) (store : Store)
      → payload_of lib document ≡ ok payload
      → (made.1 ≡ true → made.0 ≡ private_file payload)
      → IsKept store (replaced answers made store)
        ⊎ IsReplaced answers document (replaced answers made store)
  replaced-whole answers document payload (file, false) store h full =
      inl (refl, (state_unavailable, refl))
  replaced-whole answers document payload (file, true) store h full =
      subst
        (λ f.
          IsKept store (renamed answers.replace_works answers f store)
          ⊎ IsReplaced answers document (renamed answers.replace_works answers f store))
        (sym (full refl)) (renamed-whole answers.replace_works answers document payload store h)

  created-whole :
      (works : Bool) (answers : Answers) (document : Json) (payload : List ℕ) (store : Store)
      → payload_of lib document ≡ ok payload
      → IsKept store (created works answers payload store)
        ⊎ IsReplaced answers document (created works answers payload store)
  created-whole false answers document payload store h = inl (refl, (state_unavailable, refl))
  created-whole true answers document payload store h =
      replaced-whole answers document payload (fill answers payload) store h (
        filled-private_file answers.fchmod_works (write_all answers.writes [] payload)
          answers.fsync_works payload (write_all-append answers.writes [] payload))

  persist-whole :
      (answers : Answers) (document : Json) (payload : List ℕ) (store : Store)
      (seen : Outcome (Unit {0}))
      → payload_of lib document ≡ ok payload
      → IsKept store (persist lib answers payload store seen)
        ⊎ IsReplaced answers document (persist lib answers payload store seen)
  persist-whole answers document payload store (raised e) h = inl (refl, (e, refl))
  persist-whole answers document payload store (ok _) h =
      created-whole answers.create_works answers document payload store h

  entered-whole :
      (answers : Answers) (document : Json) (payload : List ℕ) (store : Store)
      (opened : Root × Outcome (Unit {0}))
      → payload_of lib document ≡ ok payload
      → IsKept store (entered lib answers payload store opened)
        ⊎ IsReplaced answers document (entered lib answers payload store opened)
  entered-whole answers document payload store (root, raised e) h = inl (refl, (e, refl))
  entered-whole answers document payload store (root, ok _) h =
      persist-whole answers document payload (record store { root = root })
        (inspect lib answers store.cache) h

  written-whole :
      (answers : Answers) (document : Json) (store : Store) (payload : Outcome (List ℕ))
      → payload_of lib document ≡ payload
      → IsKept store (written lib answers store payload)
        ⊎ IsReplaced answers document (written lib answers store payload)
  written-whole answers document store (raised e) h = inl (refl, (e, refl))
  written-whole answers document store (ok payload) h =
      entered-whole answers document payload store (open_private_directory true store.root) h

  -- Whatever the calls of the operating system answer, a write that raises before `os.replace`
  -- leaves the cache as it was; else the cache is a private file of exactly the canonical bytes of
  -- the document, no temporary file is left, and only the directory's `os.fsync` decides whether
  -- the write raises.
  pub write_snapshot-IsReplaced :
      (answers : Answers) (store : Store) (document : Json)
      → IsKept store (write_snapshot lib answers store document)
        ⊎ IsReplaced answers document (write_snapshot lib answers store document)
  unfolding write_snapshot
  write_snapshot-IsReplaced answers store document =
      written-whole answers document store (payload_of lib document) refl

-- ===== src/Hardware/Cache/Back.antt =====
-- What a successful write leaves: a cache that reads back, and no temporary file.
use kilix_system_monitor.Prelude.{
  ℕ, ◌≡◌, ◌⊎◌, ◌≤◌, inl, inr, refl, sym, ap, ◌∙◌, subst, Bool, true, false, List, [], ◌∷◌, ◌++◌,
  length, length-append, leb, Option, none, some, arith,
}
use kilix_system_monitor.Json.{
  Json, obj, Fields, Outcome, ok, raised, ◌>>=◌, ◌>>◌, >>=-elim, >>=-ok, raised-ne-ok,
  snapshot_invalid,
}
use kilix_system_monitor.Hardware.Snapshot.{
  Library, as_line, require, max_snapshot_bytes, duplicate_safe_object, validate_snapshot,
  canonical_bytes, parse_snapshot,
}
use kilix_system_monitor.Hardware.Snapshot.Parsed.{
  after_require, validate_snapshot-clean, parse_snapshot-back,
}
use kilix_system_monitor.Hardware.Cache.{
  File, Store, Root, open_file, parse_file, read_open_file, open_private_directory, read_snapshot,
  cache_status, valid, status_in, unless_missing,
}
use kilix_system_monitor.Hardware.Cache.Read.{read_open_file-private}
use kilix_system_monitor.Hardware.Cache.Opened.{open_private_directory-again}
use kilix_system_monitor.Hardware.Cache.Write.{
  Answers, private_file, fill, renamed, replaced, created, inspect, payload_of, persist, entered,
  written, write_snapshot,
}
use kilix_system_monitor.Hardware.Cache.Replaced.{IsKept, IsReplaced, write_snapshot-IsReplaced}

renamed-root :
    (works : Bool) (answers : Answers) (file : File) (store : Store)
    → (renamed works answers file store).0.root ≡ store.root
renamed-root false answers file store = refl
renamed-root true answers file store = refl

replaced-root :
    (answers : Answers) (made : File × Bool) (store : Store)
    → (replaced answers made store).0.root ≡ store.root
replaced-root answers (file, false) store = refl
replaced-root answers (file, true) store = renamed-root answers.replace_works answers file store

created-root :
    (works : Bool) (answers : Answers) (payload : List ℕ) (store : Store)
    → (created works answers payload store).0.root ≡ store.root
created-root false answers payload store = refl
created-root true answers payload store = replaced-root answers (fill answers payload) store

-- The root of a write that went through opens.
abbrev Opens : Store × Outcome (Unit {0}) → Type 0
Opens (after, raised e) = Unit
Opens (after, ok _) = open_private_directory false after.root ≡ (after.root, ok tt)

root-Opens :
    (root : Root) (end : Store × Outcome (Unit {0}))
    → end.0.root ≡ root
    → open_private_directory false root ≡ (root, ok tt)
    → Opens end
root-Opens root (after, raised e) same h = tt
root-Opens root (after, ok _) same h =
    subst (λ r. open_private_directory false r ≡ (r, ok tt)) (sym same) h

obj-eq : (a b : Fields) → obj a ≡ obj b → a ≡ b
obj-eq a b h = cc

ok-eq : {A : Type 0} (a b : A) → ok a ≡ ok b → a ≡ b
ok-eq a b h = cc

leb-le : (m n : ℕ) → leb m n ≡ true → m ≤ n
leb-le m n h = ground arith

as_line-length :
    (text : Option (List ℕ)) (payload : List ℕ) → as_line text ≡ ok payload → 1 ≤ length payload
as_line-length none payload h = absurd (raised-ne-ok snapshot_invalid payload h)
as_line-length (some text) payload h =
    subst (λ l. 1 ≤ length l) (ok-eq (text ++ (10 ∷ [])) payload h)
      (omega (arith, length-append text (10 ∷ [])))

module _ (lib : Library) where
  persist-Opens :
      (answers : Answers) (payload : List ℕ) (store : Store) (seen : Outcome (Unit {0}))
      → open_private_directory false store.root ≡ (store.root, ok tt)
      → Opens (persist lib answers payload store seen)
  persist-Opens answers payload store (raised e) h = tt
  persist-Opens answers payload store (ok _) h =
      root-Opens store.root (created answers.create_works answers payload store)
        (created-root answers.create_works answers payload store) h

  entered-Opens :
      (answers : Answers) (payload : List ℕ) (store : Store) (opened : Root × Outcome (Unit {0}))
      → open_private_directory true store.root ≡ opened
      → Opens (entered lib answers payload store opened)
  entered-Opens answers payload store (root, raised e) h = tt
  entered-Opens answers payload store (root, ok _) h =
      persist-Opens answers payload (record store { root = root }) (inspect lib answers store.cache)
        (open_private_directory-again store.root root h)

  written-Opens :
      (answers : Answers) (store : Store) (payload : Outcome (List ℕ))
      → Opens (written lib answers store payload)
  written-Opens answers store (raised e) = tt
  written-Opens answers store (ok payload) =
      entered-Opens answers payload store (open_private_directory true store.root) refl

  write_snapshot-Opens :
      (answers : Answers) (store : Store) (document : Json)
      → Opens (write_snapshot lib answers store document)
  unfolding write_snapshot
  write_snapshot-Opens answers store document =
      written-Opens answers store (payload_of lib document)

  payload_of-eq :
      (document : Fields) (payload : List ℕ)
      → payload_of lib (obj document) ≡ ok payload
      → (validate_snapshot lib (obj document) ≡ ok document)
        × (canonical_bytes lib document ≡ ok payload)
        × (length payload ≤ max_snapshot_bytes)
  payload_of-eq document payload h =
      >>=-elim (validate_snapshot lib (obj document))
        (λ v. canonical_bytes lib v >>= λ w. require (leb (length w) max_snapshot_bytes) >> ok w)
        payload h
        λ v e1 t1.
          >>=-elim (canonical_bytes lib v)
            (λ w. require (leb (length w) max_snapshot_bytes) >> ok w) payload t1
            λ w e2 t2.
              let (short, same) =
                after_require (leb (length w) max_snapshot_bytes) (ok w) payload t2 in
              let v_is : v ≡ document =
                sym (obj-eq document v ((validate_snapshot-clean lib (obj document) v e1).0)) in
              let w_is : w ≡ payload = ok-eq w payload same in
              (
                e1 ∙ ap ok v_is,
                ap (canonical_bytes lib) (sym v_is) ∙ e2 ∙ ap ok w_is,
                subst (λ l. length l ≤ max_snapshot_bytes) w_is
                    (leb-le (length w) max_snapshot_bytes short),
              )

  parse_file-private_file :
      (document : Fields) (payload : List ℕ)
      → lib.loads duplicate_safe_object payload ≡ some (obj document)
      → payload_of lib (obj document) ≡ ok payload
      → parse_file lib true (private_file payload) ≡ ok document
  parse_file-private_file document payload loads written =
      let (checked, canonical, short) = payload_of-eq document payload written in
      let long : 1 ≤ length payload = as_line-length (lib.dumps document) payload canonical in
      >>=-ok (read_open_file (private_file payload)) (λ p. parse_snapshot lib true p) payload
        (ok document) (read_open_file-private (private_file payload) refl long short)
        (parse_snapshot-back lib payload document long short loads checked canonical)

  -- The same for the bytes that are known to be canonical.
  pub parse_file-canonical_bytes :
      (document : Fields) (bytes payload : List ℕ)
      → canonical_bytes lib document ≡ ok payload
      → lib.loads duplicate_safe_object payload ≡ some (obj document)
      → payload_of lib (obj document) ≡ ok bytes
      → parse_file lib true (private_file bytes) ≡ ok document
  parse_file-canonical_bytes document bytes payload canonical loads made =
      let (_, same, _) = payload_of-eq document bytes made in
      let bytes_are : bytes ≡ payload = ok-eq bytes payload (sym same ∙ canonical) in
      parse_file-private_file document bytes
        (ap (lib.loads duplicate_safe_object) bytes_are ∙ loads) made

  -- A cache of such a file, in a root that opens.
  reads_back :
      (store : Store) (document : Fields) (payload : List ℕ)
      → parse_file lib true (private_file payload) ≡ ok document
      → store.cache ≡ some (private_file payload)
      → open_private_directory false store.root ≡ (store.root, ok tt)
      → (read_snapshot lib store ≡ ok document) × (cache_status lib store ≡ ok valid)
  unfolding read_snapshot cache_status
  reads_back store document payload parsed cache opens = (
    >>=-ok ((open_private_directory false store.root).1)
        (λ _. open_file store.cache >>= λ file. parse_file lib true file) tt (ok document)
        (ap (λ x. x.1) opens)
        (>>=-ok (open_file store.cache) (λ file. parse_file lib true file) (private_file payload)
          (ok document) (ap open_file cache) parsed),
    ap (λ x. unless_missing lib x.1 (status_in lib store.cache)) opens
        ∙ ap (status_in lib) cache
        ∙ >>=-ok (parse_file lib true (private_file payload)) (λ _. ok valid) document (ok valid)
            parsed refl,
  )

  -- Behind a write that returns, `read_snapshot` gives the document back and `cache_status` is
  -- valid, where `json.loads` gives the document back from its canonical bytes.
  pub write_snapshot-read_snapshot :
      (answers : Answers) (store after : Store) (document : Fields) (payload : List ℕ)
      → write_snapshot lib answers store (obj document) ≡ (after, ok tt)
      → canonical_bytes lib document ≡ ok payload
      → lib.loads duplicate_safe_object payload ≡ some (obj document)
      → (read_snapshot lib after ≡ ok document) × (cache_status lib after ≡ ok valid)
  write_snapshot-read_snapshot answers store after document payload h canonical loads =
      elim (subst (λ end. IsKept store end ⊎ IsReplaced lib answers (obj document) end) h
        (write_snapshot-IsReplaced lib answers store (obj document))) [
          | inl (_, (e, bad)) ↦ absurd (raised-ne-ok e tt (sym bad))
          | inr (bytes, made, cache, _, _) ↦
              reads_back after document bytes
                (parse_file-canonical_bytes document bytes payload canonical loads made) cache
                (subst Opens h (write_snapshot-Opens answers store (obj document)))
        ]

-- ===== src/Hardware/Cache/Read.antt =====
-- What the readers of the cache accept.
use kilix_system_monitor.Prelude.{
  ℕ, suc, ◌≡◌, ◌≤◌, refl, sym, ap, ◌∙◌, Bool, true, false, ◌&&◌, List, length, Option, none, some,
  leb, arith,
}
use kilix_system_monitor.Json.{obj, Fields, Outcome, ok, raised, ◌>>◌, >>=-elim, >>=-ok}
use kilix_system_monitor.Hardware.Redaction.{contains_identifier}
use kilix_system_monitor.Hardware.Snapshot.{
  Library, require, max_snapshot_bytes, canonical_bytes, parse_snapshot,
}
use kilix_system_monitor.Hardware.Snapshot.Parsed.{
  after_require, within_bounds, parse_snapshot-canonical,
}
use kilix_system_monitor.Hardware.Cache.{
  File, Store, take, take-all, is_private, is_readable, bounded, read_open_file, open_file,
  parse_file, open_private_directory, read_snapshot,
}

and-left : (a b : Bool) → (a && b) ≡ true → a ≡ true
and-left true b h = refl
and-left false b h = h

and-right : (a b : Bool) → (a && b) ≡ true → b ≡ true
and-right true b h = h
and-right false b h = cc

ok-eq : {A : Type 0} (a b : A) → ok a ≡ ok b → a ≡ b
ok-eq a b h = cc

le_suc : {m n : ℕ} → m ≤ n → m ≤ suc n
le_suc h = omega (arith, h)

and-both : (a b : Bool) → a ≡ true → b ≡ true → (a && b) ≡ true
and-both a b ha hb = ap (λ x. x && b) ha ∙ hb

in_bounds : (n m : ℕ) → (leb 1 n && leb n m) ≡ true → n ≤ m
in_bounds n m h = ground arith

le-leb : (n m : ℕ) → n ≤ m → leb n m ≡ true
le-leb n m h = ground arith

pub read_open_file-eq :
    (file : File) (payload : List ℕ)
    → read_open_file file ≡ ok payload
    → (is_private file ≡ true) × (payload ≡ file.bytes)
unfolding read_open_file
read_open_file-eq file payload h =
    let (checked, t1) =
      after_require (is_readable file) (bounded (take (suc max_snapshot_bytes) file.bytes)) payload
        h in
    let (_, t2) =
      after_require (leb (length (take (suc max_snapshot_bytes) file.bytes)) max_snapshot_bytes)
        (ok (take (suc max_snapshot_bytes) file.bytes)) payload t1 in
    (
      and-left (is_private file) _ checked,
      ok-eq payload (take (suc max_snapshot_bytes) file.bytes) (sym t2)
          ∙ take-all (suc max_snapshot_bytes) file.bytes (
              le_suc (
                in_bounds (length file.bytes) max_snapshot_bytes
                  (and-right (is_private file) _ checked))),
    )

pub read_open_file-private :
    (file : File)
    → is_private file ≡ true
    → 1 ≤ length file.bytes
    → length file.bytes ≤ max_snapshot_bytes
    → read_open_file file ≡ ok file.bytes
unfolding read_open_file
read_open_file-private file private h1 h2 =
    >>=-ok (require (is_readable file)) _ tt (ok file.bytes)
      (ap require (and-both (is_private file) _ private (within_bounds (length file.bytes) h1 h2)))
      (ap bounded (take-all (suc max_snapshot_bytes) file.bytes (le_suc h2))
        ∙ >>=-ok (require (leb (length file.bytes) max_snapshot_bytes)) (λ _. ok file.bytes) tt
            (ok file.bytes) (ap require (le-leb (length file.bytes) max_snapshot_bytes h2)) refl)

open_file-eq : (entry : Option File) (file : File) → open_file entry ≡ ok file → entry ≡ some file
open_file-eq none file h = cc
open_file-eq (some other) file h = ground arith

accepted-eq :
    {B : Type 0} (m : Outcome (Unit {0})) (k : Outcome B) (b : B) → (m >> k) ≡ ok b → k ≡ ok b
accepted-eq (ok _) k b h = h
accepted-eq (raised e) k b h = cc

module _ (lib : Library) where
  -- What `read_snapshot` returns holds no identifier, and the cache is a private file of exactly
  -- its canonical bytes.
  pub read_snapshot-is_private :
      (store : Store) (fields : Fields)
      → read_snapshot lib store ≡ ok fields
      → (file : File) × (store.cache ≡ some file)
        × (is_private file ≡ true)
        × (canonical_bytes lib fields ≡ ok file.bytes)
        × (contains_identifier lib.is_address (obj fields) ≡ false)
  unfolding read_snapshot
  read_snapshot-is_private store fields h =
      >>=-elim (open_file store.cache) (λ file. parse_file lib true file) fields
        (accepted-eq ((open_private_directory false store.root).1) _ fields h)
        λ file e1 t1.
          >>=-elim (read_open_file file) (λ payload. parse_snapshot lib true payload) fields t1
            λ payload e2 t2.
              let (private, same) = read_open_file-eq file payload e2 in
              let (clean, written) = parse_snapshot-canonical lib payload fields t2 in
              (file, open_file-eq store.cache file e1, private, written ∙ ap ok same, clean)

-- ===== src/Hardware/Snapshot/Parsed.antt =====
-- What `validate_snapshot` and `_parse_snapshot` accept.
use kilix_system_monitor.Prelude.{
  ℕ, ◌≡◌, ◌≤◌, refl, sym, ap, ◌∙◌, Bool, true, false, ◌&&◌, List, [], ◌∷◌, leb, length, some, arith,
}
use kilix_system_monitor.Json.{Json, obj, Fields, Outcome, ok, raised, ◌>>◌, >>=-elim, >>=-ok}
use kilix_system_monitor.Hardware.Redaction.{same_codes, contains_identifier, validate_redaction}
use kilix_system_monitor.Hardware.Redaction.Clean.{validate_redaction-clean}
use kilix_system_monitor.Hardware.Snapshot.{
  Library, require, max_snapshot_bytes, canonical_bytes, is_observation, redacted,
  validate_snapshot, loaded, is_canonical, parse_snapshot, duplicate_safe_object, invalid_instead,
}

pub same_codes-eq : (cs ds : List ℕ) → same_codes cs ds ≡ true → cs ≡ ds
same_codes-eq [] [] h = refl
same_codes-eq [] (d ∷ ds) h = cc
same_codes-eq (c ∷ cs) [] h = cc
same_codes-eq (c ∷ cs) (d ∷ ds) h = ground (arith, same_codes-eq cs ds)

pub same_codes_refl : (cs : List ℕ) → same_codes cs cs ≡ true
same_codes_refl [] = refl
same_codes_refl (c ∷ cs) = ground (arith, same_codes_refl cs)

pub require-eq : (b : Bool) → require b ≡ ok tt → b ≡ true
require-eq true h = refl
require-eq false h = cc

invalid_instead-eq : {A : Type 0} (m : Outcome A) (a : A) → invalid_instead m ≡ ok a → m ≡ ok a
invalid_instead-eq (ok b) a h = h
invalid_instead-eq (raised e) a h = cc

pub after_require :
    {B : Type 0} (b : Bool) (k : Outcome B) (r : B)
    → (require b >> k) ≡ ok r
    → (b ≡ true) × (k ≡ ok r)
after_require true k r h = (refl, h)
after_require false k r h = cc

pub within_bounds :
    (n : ℕ) → 1 ≤ n → n ≤ max_snapshot_bytes → (leb 1 n && leb n max_snapshot_bytes) ≡ true
within_bounds n h1 h2 = ground arith

module _ (lib : Library) where
  -- What is accepted is the given object, holds no identifier, and has canonical bytes.
  pub validate_snapshot-clean :
      (document : Json) (fields : Fields)
      → validate_snapshot lib document ≡ ok fields
      → (document ≡ obj fields) × (contains_identifier lib.is_address (obj fields) ≡ false)
  unfolding validate_snapshot
  validate_snapshot-clean (obj given) fields h =
      >>=-elim (invalid_instead (validate_redaction lib.is_address (obj given))) _ fields
        ((after_require (is_observation given) (redacted lib given) fields h).1)
        λ kept e1 t1.
          >>=-elim (canonical_bytes lib given) (λ _. ok given) fields t1
            λ written e2 t2.
              let (same, clean) =
                validate_redaction-clean lib.is_address (obj given) kept
                  (invalid_instead-eq _ kept e1) in
              (let kept_is : obj given ≡ obj fields = cc in
                (kept_is, ap (contains_identifier lib.is_address) (sym kept_is ∙ same) ∙ clean))
  validate_snapshot-clean document fields h = cc

  -- `is_canonical` accepts the canonical bytes only.
  pub is_canonical-eq :
      (payload : List ℕ) (fields : Fields)
      → is_canonical lib payload fields ≡ ok tt
      → canonical_bytes lib fields ≡ ok payload
  is_canonical-eq payload fields h =
      >>=-elim (canonical_bytes lib fields) (λ written. require (same_codes payload written)) tt h
        λ written e same.
          e
          ∙ ap ok
              (sym (same_codes-eq payload written (require-eq (same_codes payload written) same)))

  pub parse_snapshot-canonical :
      (payload : List ℕ) (fields : Fields)
      → parse_snapshot lib true payload ≡ ok fields
      → (contains_identifier lib.is_address (obj fields) ≡ false)
        × (canonical_bytes lib fields ≡ ok payload)
  unfolding parse_snapshot
  parse_snapshot-canonical payload fields h =
      >>=-elim (loaded lib (lib.loads duplicate_safe_object payload)) _ fields
        ((after_require (leb 1 (length payload) && leb (length payload) max_snapshot_bytes) _ fields
          h).1)
        λ document e1 t1.
          >>=-elim (validate_snapshot lib document)
            (λ validated. is_canonical lib payload validated >> ok validated) fields t1
            λ validated e2 t2.
              >>=-elim (is_canonical lib payload validated) (λ _. ok validated) fields t2
                λ done e3 t3.
                  let same : validated ≡ fields = cc in
                  (
                    (validate_snapshot-clean document fields (e2 ∙ ap ok same)).1,
                    ap (canonical_bytes lib) (sym same) ∙ is_canonical-eq payload validated e3,
                  )

  pub parse_snapshot-back :
      (payload : List ℕ) (fields : Fields)
      → 1 ≤ length payload
      → length payload ≤ max_snapshot_bytes
      → lib.loads duplicate_safe_object payload ≡ some (obj fields)
      → validate_snapshot lib (obj fields) ≡ ok fields
      → canonical_bytes lib fields ≡ ok payload
      → parse_snapshot lib true payload ≡ ok fields
  unfolding parse_snapshot
  parse_snapshot-back payload fields h1 h2 loads valid written =
      >>=-ok (require (leb 1 (length payload) && leb (length payload) max_snapshot_bytes)) _ tt
        (ok fields) (ap require (within_bounds (length payload) h1 h2))
        (>>=-ok (loaded lib (lib.loads duplicate_safe_object payload)) _ (obj fields) (ok fields)
          (ap (loaded lib) loads)
          (>>=-ok (validate_snapshot lib (obj fields)) _ fields (ok fields) valid (
            >>=-ok (is_canonical lib payload fields) (λ _. ok fields) tt (ok fields)
              (>>=-ok (canonical_bytes lib fields) (λ text. require (same_codes payload text))
                payload (ok tt) written (ap require (same_codes_refl payload)))
              refl)))

-- ===== src/Sizer/Catalog/Accepted.antt =====
-- What an accepted catalog satisfies.
use kilix_system_monitor.Prelude.{
  ℕ, ◌^◌, inl, inr, ◌+◌, ◌≡◌, sym, ◌∙◌, ap, String, true, false, List, [], ◌∷◌, arith, All, ==_iff,
}
use kilix_system_monitor.Sizer.Checked.{
  Value, number, absent, other, as_int, ok, integer, Checked-cases, integer_ok,
}
use kilix_system_monitor.Sizer.Geometry.{Checkpoint, WeightFile}
use kilix_system_monitor.Sizer.Catalog.{
  Candidate, Catalog, check_files, check_identity, check_candidates, validate_catalog, occurs,
  is_total,
}

-- No element has the name of an earlier one, or of those seen before.
abbrev pub HasUniqueName {ℓ} : {A : Type ℓ} → (A → String) → List String → List A → Type 0
HasUniqueName name seen [] = Unit
HasUniqueName name seen (x ∷ xs) =
    (occurs (name x) seen ≡ false) × HasUniqueName name (name x ∷ seen) xs

abbrev pub sizes : List WeightFile → ℕ
sizes [] = 0
sizes (file ∷ files) = as_int file.bytes + sizes files

check_files_sound :
    (files : List WeightFile) (paths : List String) (n : ℕ)
    → check_files files paths ≡ ok n
    → (n ≡ sizes files) × HasUniqueName (λ f. WeightFile.path f) paths files
unfolding check_files
check_files_sound [] paths n h = (ground arith, tt)
check_files_sound (file ∷ files) paths n h =
    elim (Checked-cases (integer file.bytes "checkpoint file bytes" (2 ^ 50) 1)) [
      | inl (b, at) ↦ elim (Checked-cases (check_files files (file.path ∷ paths))) [
        | inl (k, tail) ↦
            let (value, _, _) = integer_ok file.bytes _ _ _ b at in
            let (sum, unique) = check_files_sound files (file.path ∷ paths) k tail in
            let made : n ≡ b + k = ground arith in
            let new : occurs file.path paths ≡ false = ground arith in
            (
              made ∙ (ap (λ k. b + k) sum ∙ ap (λ v. as_int v + sizes files) (sym value)),
              (new, unique),
            )
        | inr (e, tail) ↦ absurd (ground arith)
      ]
      | inr (e, at) ↦ absurd (ground arith)
    ]

-- The declared size of a checkpoint is the sum of its files, which have distinct paths.
abbrev pub IsIdentified : Checkpoint → Type 0
IsIdentified checkpoint =
    (checkpoint.checkpoint_bytes ≡ number (sizes checkpoint.checkpoint_files))
    × HasUniqueName (λ f. WeightFile.path f) [] checkpoint.checkpoint_files

is_total-number : (v : Value) (n : ℕ) → is_total v n ≡ true → v ≡ number n
is_total-number (number k) n h = ap number ((==_iff k n).0 h)
is_total-number absent n h = cc
is_total-number other n h = cc

check_identity_sound :
    (checkpoint : Checkpoint) → check_identity checkpoint ≡ ok tt → IsIdentified checkpoint
unfolding check_identity
check_identity_sound checkpoint h =
    elim (Checked-cases (check_files checkpoint.checkpoint_files [])) [
      | inl (n, files) ↦
          let (total, unique) = check_files_sound checkpoint.checkpoint_files [] n files in
          (is_total-number checkpoint.checkpoint_bytes n (ground arith) ∙ ap number total, unique)
      | inr (e, files) ↦ absurd (ground arith)
    ]

abbrev pub IsIdentifiedPair : Candidate → Type 0
IsIdentifiedPair c = IsIdentified c.generation_checkpoint × IsIdentified c.decision_checkpoint

check_candidates_sound :
    (cs : List Candidate) (seen : List String)
    → check_candidates cs seen ≡ ok tt
    → HasUniqueName (λ c. Candidate.id c) seen cs × All IsIdentifiedPair cs
unfolding check_candidates
check_candidates_sound [] seen h = (tt, tt)
check_candidates_sound (c ∷ cs) seen h =
    let new : occurs c.id seen ≡ false = ground arith in
    let g : check_identity c.generation_checkpoint ≡ ok tt = ground arith in
    let d : check_identity c.decision_checkpoint ≡ ok tt = ground arith in
    let (unique, rest) = check_candidates_sound cs (c.id ∷ seen) (ground arith) in
    (
      (new, unique),
      (
        (
          check_identity_sound c.generation_checkpoint g,
          check_identity_sound c.decision_checkpoint d,
        ),
        rest,
      ),
    )

-- In an accepted catalog the candidates have distinct identifiers, and each of their checkpoints
-- declares the sum of the sizes of its files, which have distinct paths.
pub validate_catalog-IsIdentified :
    (catalog : Catalog)
    → validate_catalog catalog ≡ ok tt
    → HasUniqueName (λ c. Candidate.id c) [] catalog.candidates
      × All IsIdentifiedPair catalog.candidates
unfolding validate_catalog
validate_catalog-IsIdentified catalog h =
    check_candidates_sound catalog.candidates [] (ground arith)

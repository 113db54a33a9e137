-- ===== src/Lease/Exec.antt =====
-- Lease errors by their codes, and operations on the namespace that may raise: what was written
-- before a raise stays written.
use kilix_system_monitor.Prelude.{Bool, true, false}

-- The codes of `LeaseError`.
pub data Code : Type 0 where
  unavailable invalid_request queue_full lost_lease deadline_passed cancelled : Code

pub data Result {ℓ} (A : Type ℓ) : Type ℓ where
  ok : A → Result A
  err : Code → Result A

abbrev pub Exec : Type 0 → Type 0 → Type 0
Exec S A = S → Result A × S

abbrev pub pure : {S A : Type 0} → A → Exec S A
pure a s = (ok a, s)

abbrev pub raise : {S A : Type 0} → Code → Exec S A
raise c s = (err c, s)

abbrev pub continue_with : {S A B : Type 0} → (A → Exec S B) → Result A × S → Result B × S
continue_with f (ok a, s) = f a s
continue_with f (err c, s) = (err c, s)

infixl 5 ◌>>=◌ ◌>>◌
abbrev pub ◌>>=◌ : {S A B : Type 0} → Exec S A → (A → Exec S B) → Exec S B
◌>>=◌ m f s = continue_with f (m s)

abbrev pub ◌>>◌ : {S B : Type 0} → Exec S (Unit {0}) → Exec S B → Exec S B
m >> k = m >>= λ _. k

-- `if not test: raise LeaseError(code, ...)`
abbrev pub require : {S : Type 0} → Bool → Code → Exec S (Unit {0})
require true c = pure tt
require false c = raise c

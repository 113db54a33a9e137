-- ===== src/Sizer/Checked.antt =====
-- Values read from JSON, and checks that raise `ValueError`.
use kilix_system_monitor.Prelude.{
  ℕ, ◌≤◌, ◌≡◌, refl, ◌⊎◌, inl, inr, arith, String, Bool, true, false, ◌&&◌, leb, if◌then◌else◌,
}

-- A value from a JSON object, as the checks see it: missing or null, a non-negative integer, or
-- anything else.
pub data Value : Type 0 where
  absent : Value
  number : ℕ → Value
  other : Value

-- The messages of the `ValueError`s.
pub data Error : Type 0 where
  out_of_range : String → Error
  missing_sizing unbound_config invalid_digest unsupported_architecture excess_heads layer_mismatch
        unsupported_layer unsupported_recurrent invalid_gate context_too_long :
      Error
  invalid_schema invalid_mapping excess_ram invalid_cgroup invalid_gpus invalid_gpu
        invalid_timestamp invalid_reserve unsupported_backend :
      Error
  invalid_catalog invalid_count invalid_id invalid_model invalid_revision invalid_config
        missing_files invalid_file total_mismatch :
      Error

pub data Checked (A : Type 0) : Type 0 where
  ok : A → Checked A
  err : Error → Checked A

infixl 5 ◌>>=◌ ◌>>◌
abbrev pub ◌>>=◌ : {A B : Type 0} → Checked A → (A → Checked B) → Checked B
ok a >>= f = f a
err e >>= f = err e

abbrev pub ◌>>◌ : {B : Type 0} → Checked (Unit {0}) → Checked B → Checked B
m >> k = m >>= λ _. k

-- `if not test: raise ValueError(...)`
abbrev pub require : Bool → Error → Checked (Unit {0})
require true e = ok tt
require false e = err e

-- `integer(value, name, maximum, minimum)` of estimate.py
unfoldable pub integer : Value → String → ℕ → ℕ → Checked ℕ
integer absent name maximum minimum = err (out_of_range name)
integer other name maximum minimum = err (out_of_range name)
integer (number n) name maximum minimum =
    if leb minimum n && leb n maximum then ok n else err (out_of_range name)

-- The integer of a value that a check has accepted.
abbrev pub as_int : Value → ℕ
as_int (number n) = n
as_int absent = 0
as_int other = 0

-- Inversion of a successful chain.
pub >>=-eq-ok :
    {A B : Type 0} (m : Checked A) (f : A → Checked B) (b : B)
    → (m >>= f) ≡ ok b
    → (a : A) × (m ≡ ok a) × (f a ≡ ok b)
>>=-eq-ok (ok a) f b h = (a, refl, h)
>>=-eq-ok (err e) f b h = cc

pub Checked-cases :
    {A : Type 0} (m : Checked A) → ((a : A) × (m ≡ ok a)) ⊎ ((e : Error) × (m ≡ err e))
Checked-cases (ok a) = inl (a, refl)
Checked-cases (err e) = inr (e, refl)

-- What an accepted integer satisfies.
pub integer_ok :
    (v : Value) (name : String) (maximum minimum n : ℕ)
    → integer v name maximum minimum ≡ ok n
    → (v ≡ number n) × (minimum ≤ n) × (n ≤ maximum)
unfolding integer
integer_ok absent name maximum minimum n h = cc
integer_ok other name maximum minimum n h = cc
integer_ok (number k) name maximum minimum n h = (ground arith, ground arith, ground arith)

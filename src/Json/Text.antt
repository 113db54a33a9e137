-- ===== src/Json/Text.antt =====
-- Texts by their length in characters.
use kilix_system_monitor.Prelude.{ℕ, zero, suc, ◌≤◌, ◌≡◌, refl, ap, String, arith}

abbrev pub text_length : String → ℕ
text_length String.[] = 0
text_length (String.◌∷◌ c s) = suc (text_length s)

-- `text[:n]`
abbrev pub take_text : ℕ → String → String
take_text zero s = String.[]
take_text (suc n) String.[] = String.[]
take_text (suc n) (String.◌∷◌ c s) = String.◌∷◌ c (take_text n s)

pub take_text-all : (n : ℕ) (s : String) → text_length s ≤ n → take_text n s ≡ s
take_text-all zero String.[] h = refl
take_text-all zero (String.◌∷◌ c s) h = absurd (omega (arith, h))
take_text-all (suc n) String.[] h = refl
take_text-all (suc n) (String.◌∷◌ c s) h =
    ap (λ t. String.◌∷◌ c t) (take_text-all n s (omega (arith, h)))

pub text_length-take_text : (n : ℕ) (s : String) → text_length (take_text n s) ≤ n
text_length-take_text zero s = omega arith
text_length-take_text (suc n) String.[] = omega arith
text_length-take_text (suc n) (String.◌∷◌ c s) = omega (arith, text_length-take_text n s)

-- ===== src/Wire/Bounds/Parts.antt =====
-- The bounds of single values.
use kilix_system_monitor.Prelude.{
  ℕ, zero, suc, ◌*◌, ◌≤◌, ◌≡◌, refl, sym, ◌∙◌, ap, subst, ◌-◌, String, Option, some, List, min, max,
  All, length, arith,
}
use kilix_system_monitor.Prelude.Int.{ℤ, pos, negsuc, pos_part}
use kilix_system_monitor.Json.{
  Json, null, arr, obj, Items, nil, cons, Fields, end, field, Float, real, infinite, nan, Outcome,
  ok, raised, >>=-eq-ok, Conversions, unit, to_float,
}
use kilix_system_monitor.Wire.{Readings, Pressure}
use kilix_system_monitor.Wire.Proper.{
  IsReal, IsNonnegative, IsPercent, IfSome, AreReal, IsPressure, IsSeries,
}
use kilix_system_monitor.Wire.Read.{
  max_zero, min_hundred, if_finite, zero_float, map_ok, catching, finite_float, positive,
  optional_float, percent, read_pressure, read_readings, read_resources, read_lines, take_items,
  read_floats, optional_item, non_negative, optional_floats, at_least, at_most,
}

abbrev value_of : {A : Type 0} → A → Outcome A → A
value_of default (ok a) = a
value_of default (raised e) = default

pub ok-injective : {A : Type 0} (a b : A) → ◌≡◌ {A = Outcome A} (ok a) (ok b) → a ≡ b
ok-injective a b h = ap (value_of a) h

map_ok-eq :
    {A B : Type 0} (f : A → B) (m : Outcome A) (b : B)
    → map_ok f m ≡ ok b
    → (a : A) × (m ≡ ok a) × (f a ≡ b)
map_ok-eq f (ok a) b h = (a, refl, ok-injective _ _ h)
map_ok-eq f (raised e) b h = cc

pub at_least-le : (low : ℕ) (m : Outcome ℕ) (n : ℕ) → at_least low m ≡ ok n → low ≤ n
at_least-le low m n h = let (k, _, e) = map_ok-eq (max low) m n h in omega (arith, e)

pub at_most-le : (high : ℕ) (m : Outcome ℕ) (n : ℕ) → at_most high m ≡ ok n → n ≤ high
at_most-le high m n h = let (k, _, e) = map_ok-eq (min high) m n h in omega (arith, e)

if_finite-IsReal : (z : ℤ) (f : Float) → IsReal (if_finite (real z) f)
if_finite-IsReal z (real y) = (y, refl)
if_finite-IsReal z (infinite b) = (z, refl)
if_finite-IsReal z nan = (z, refl)

max_zero-IsNonnegative : (z : ℤ) → IsNonnegative (max_zero (real z))
max_zero-IsNonnegative z = (pos_part z, refl)

min_hundred-IsPercent : (z : ℤ) → IsPercent (max_zero (min_hundred (real z)))
min_hundred-IsPercent (pos n) = (min (100 * unit) n, refl, omega arith)
min_hundred-IsPercent (negsuc n) = (0, refl, omega arith)

non_negative-IsNonnegative : (z : ℤ) → IfSome IsNonnegative (non_negative (real z))
non_negative-IsNonnegative (pos n) = (n, refl)
non_negative-IsNonnegative (negsuc n) = tt

module _ (c : Conversions) where
  real-finite_float :
      (z : ℤ) (value : Json) (f : Float) → finite_float c (real z) value ≡ ok f → IsReal f
  real-finite_float z value f h =
      let (g, _, e) = map_ok-eq (if_finite (real z)) (catching (real z) (to_float c value)) f h in
      subst IsReal e (if_finite-IsReal z g)

  pub finite_float-IsReal :
      (value : Json) (f : Float) → finite_float c zero_float value ≡ ok f → IsReal f
  finite_float-IsReal value f h = real-finite_float (pos 0) value f h

  -- What holds of a float made of a finite one.
  finite-map :
      {A : Type 0} (P : A → Type 0) (k : Float → A) (z : ℤ) (value : Json) (a : A)
      → ((y : ℤ) → P (k (real y)))
      → map_ok k (finite_float c (real z) value) ≡ ok a
      → P a
  finite-map P k z value a all h =
      let (f, at, e) = map_ok-eq k (finite_float c (real z) value) a h in
      let (y, same) = real-finite_float z value f at in subst P (ap k (sym same) ∙ e) (all y)

  pub positive-IsNonnegative :
      (value : Json) (f : Float) → positive c value ≡ ok f → IsNonnegative f
  positive-IsNonnegative value f h =
      finite-map IsNonnegative max_zero (pos 0) value f max_zero-IsNonnegative h

  abbrev some_real : Float → Option Float
  some_real f = some f

  abbrev some_percent : Float → Option Float
  some_percent f = some (max_zero (min_hundred f))

  pub optional_float-IsReal :
      (value : Json) (o : Option Float) → optional_float c value ≡ ok o → IfSome IsReal o
  optional_float-IsReal null o h = subst (IfSome IsReal) (ok-injective _ _ h) tt
  optional_float-IsReal value o h =
      finite-map (IfSome IsReal) (λ f. some f) (pos 0) value o (λ y. (y, refl)) h

  pub percent-IsPercent :
      (value : Json) (o : Option Float) → percent c value ≡ ok o → IfSome IsPercent o
  percent-IsPercent null o h = subst (IfSome IsPercent) (ok-injective _ _ h) tt
  percent-IsPercent value o h =
      finite-map (IfSome IsPercent) (λ f. some (max_zero (min_hundred f))) (pos 0) value o
        min_hundred-IsPercent h

  readings-AreReal : (fields : Fields) (rs : Readings) → read_readings c fields ≡ ok rs → AreReal rs
  readings-AreReal end rs h = subst AreReal (ok-injective _ _ h) tt
  readings-AreReal (field key number fields) rs h =
      let (f, at, h1) = >>=-eq-ok (finite_float c zero_float number) _ rs h in
      let (rest, at_rest, h2) = >>=-eq-ok (read_readings c fields) _ rs h1 in
      subst AreReal (ok-injective _ _ h2)
        (finite_float-IsReal number f at, readings-AreReal fields rest at_rest)

  lines-IsPressure :
      (key : String) (lines : Json) (rest : Outcome Pressure) (ps : Pressure)
      → ((others : Pressure) → rest ≡ ok others → IsPressure others)
      → read_lines c key lines rest ≡ ok ps
      → IsPressure ps
  lines-IsPressure key (obj lines) rest ps before h =
      let (rs, at, h1) = >>=-eq-ok (read_readings c lines) _ ps h in
      let (others, at_rest, h2) = >>=-eq-ok rest _ ps h1 in
      subst IsPressure (ok-injective _ _ h2) (readings-AreReal lines rs at, before others at_rest)
  lines-IsPressure key value rest ps before h = before ps h

  resources-IsPressure :
      (fields : Fields) (ps : Pressure) → read_resources c fields ≡ ok ps → IsPressure ps
  resources-IsPressure end ps h = subst IsPressure (ok-injective _ _ h) tt
  resources-IsPressure (field key lines fields) ps h =
      lines-IsPressure key lines (read_resources c fields) ps (resources-IsPressure fields) h

  pub read_pressure-IsPressure :
      (value : Json) (ps : Pressure) → read_pressure c value ≡ ok ps → IsPressure ps
  read_pressure-IsPressure (obj resources) ps h = resources-IsPressure resources ps h
  read_pressure-IsPressure value ps h = subst IsPressure (ok-injective _ _ h) tt

  item-IsNonnegative :
      (value : Json) (o : Option Float) → optional_item c value ≡ ok o → IfSome IsNonnegative o
  item-IsNonnegative null o h = subst (IfSome IsNonnegative) (ok-injective _ _ h) tt
  item-IsNonnegative value o h =
      finite-map (IfSome IsNonnegative) non_negative (negsuc (unit - 1)) value o
        non_negative-IsNonnegative h

  floats-IsSeries :
      (n : ℕ) (items : Items) (fs : List (Option Float))
      → read_floats c (take_items n items) ≡ ok fs
      → (length fs ≤ n) × All (IfSome IsNonnegative) fs
  floats-IsSeries zero items fs h =
      subst (λ fs. (length fs ≤ 0) × All (IfSome IsNonnegative) fs) (ok-injective _ _ h)
        (omega arith, tt)
  floats-IsSeries (suc n) nil fs h =
      subst (λ fs. (length fs ≤ suc n) × All (IfSome IsNonnegative) fs) (ok-injective _ _ h)
        (omega arith, tt)
  floats-IsSeries (suc n) (cons value items) fs h =
      let (f, at, h1) = >>=-eq-ok (optional_item c value) _ fs h in
      let (rest, at_rest, h2) = >>=-eq-ok (read_floats c (take_items n items)) _ fs h1 in
      let (short, all) = floats-IsSeries n items rest at_rest in
      subst (λ fs. (length fs ≤ suc n) × All (IfSome IsNonnegative) fs) (ok-injective _ _ h2)
        (omega (arith, short), (item-IsNonnegative value f at, all))

  pub optional_floats-IsSeries :
      (value : Json) (fs : List (Option Float)) → optional_floats c value ≡ ok fs → IsSeries fs
  optional_floats-IsSeries (arr items) fs h = floats-IsSeries 4096 items fs h
  optional_floats-IsSeries value fs h = subst IsSeries (ok-injective _ _ h) (omega arith, tt)

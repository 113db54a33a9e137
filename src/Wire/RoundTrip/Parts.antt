-- ===== src/Wire/RoundTrip/Parts.antt =====
-- The round trip of single values.
use kilix_system_monitor.Prelude.{
  ℕ, zero, suc, ◌*◌, ◌≤◌, ◌≡◌, refl, sym, ap, subst, Option, none, some, List, [], ◌∷◌, min, All,
  length, arith, if◌then◌else◌,
}
use kilix_system_monitor.Prelude.Int.{pos}
use kilix_system_monitor.Json.{cons, Float, real, ok, Conversions, is_finite, unit}
use kilix_system_monitor.Wire.{Counters, Readings, Pressure}
use kilix_system_monitor.Wire.Proper.{
  IsReal, IsNonnegative, IsPercent, IfSome, AreReal, IsPressure, IsSeries,
}
use kilix_system_monitor.Wire.Read.{
  max_zero, min_hundred, zero_float, optional_float, optional_number, percent, read_pressure,
  read_readings, read_resources, read_counters, take_items, read_floats, optional_floats,
}
use kilix_system_monitor.Wire.Write.{
  write_float, write_number, write_pressure, readings_fields, pressure_fields, write_counters,
  float_items, write_floats,
}

pub real_back : (f : Float) → IsReal f → (if is_finite f then f else zero_float) ≡ f
real_back f (z, e) = subst (λ f. (if is_finite f then f else zero_float) ≡ f) (sym e) refl

pub nonnegative_back :
    (f : Float) → IsNonnegative f → max_zero (if is_finite f then f else zero_float) ≡ f
nonnegative_back f (n, e) =
    subst (λ f. max_zero (if is_finite f then f else zero_float) ≡ f) (sym e) refl

module _ (c : Conversions) where
  pub optional_back : (o : Option Float) → IfSome IsReal o → optional_float c (write_float o) ≡ ok o
  optional_back none h = refl
  optional_back (some f) h = rw (real_back f h) refl

  pub number_back : (o : Option ℕ) → optional_number c (write_number o) ≡ ok o
  number_back none = refl
  number_back (some n) = refl

  hundred_back : (n : ℕ) → n ≤ 100 * unit → min_hundred (real (pos n)) ≡ real (pos n)
  hundred_back n h =
      let kept : min (100 * unit) n ≡ n = omega (arith, h) in ap (λ k. real (pos k)) kept

  pub percent_back : (o : Option Float) → IfSome IsPercent o → percent c (write_float o) ≡ ok o
  percent_back none h = refl
  percent_back (some f) (n, e, le) =
      subst (λ f. percent c (write_float (some f)) ≡ ok (some f)) (sym e)
        (ap (λ f. ok (some (max_zero f))) (hundred_back n le))

  readings_back : (rs : Readings) → AreReal rs → read_readings c (readings_fields rs) ≡ ok rs
  readings_back [] h = refl
  readings_back ((key, f) ∷ rs) h = rw (real_back f h.0) (rw (readings_back rs h.1) refl)

  resources_back : (ps : Pressure) → IsPressure ps → read_resources c (pressure_fields ps) ≡ ok ps
  resources_back [] h = refl
  resources_back ((key, rs) ∷ ps) h = rw (readings_back rs h.0) (rw (resources_back ps h.1) refl)

  pub pressure_back : (ps : Pressure) → IsPressure ps → read_pressure c (write_pressure ps) ≡ ok ps
  pressure_back ps h = resources_back ps h

  pub counters_back : (vm : Counters) → read_counters c (write_counters vm) ≡ ok vm
  counters_back [] = refl
  counters_back ((key, n) ∷ vm) = rw (counters_back vm) refl

  take_items-all :
      (n : ℕ) (fs : List (Option Float))
      → length fs ≤ n
      → take_items n (float_items fs) ≡ float_items fs
  take_items-all zero [] h = refl
  take_items-all zero (f ∷ fs) h = absurd (omega (arith, h))
  take_items-all (suc n) [] h = refl
  take_items-all (suc n) (f ∷ fs) h =
      ap (cons (write_float f)) (take_items-all n fs (omega (arith, h)))

  items_back :
      (fs : List (Option Float))
      → All (IfSome IsNonnegative) fs
      → read_floats c (float_items fs) ≡ ok fs
  items_back [] h = refl
  items_back (none ∷ fs) h = rw (items_back fs h.1) refl
  items_back (some f ∷ fs) h =
      let (n, e) = h.0 in
      subst (λ f. read_floats c (float_items (some f ∷ fs)) ≡ ok (some f ∷ fs)) (sym e)
        (rw (items_back fs h.1) refl)

  pub floats_back :
      (fs : List (Option Float)) → IsSeries fs → optional_floats c (write_floats fs) ≡ ok fs
  floats_back fs h = rw (take_items-all 4096 fs h.0) (items_back fs h.1)

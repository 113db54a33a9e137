-- ===== src/Wire/Read.antt =====
-- The values of the fields that the `from_dict` methods of model.py read.
pub mod Records
use kilix_system_monitor.Prelude.{
  ℕ, zero, suc, ◌-◌, ◌*◌, String, Bool, true, false, Option, none, some, List, [], ◌∷◌, min, max,
  ◌==◌, length, if◌then◌else◌,
}
use kilix_system_monitor.Prelude.Int.{pos, negsuc, pos_part}
use kilix_system_monitor.Json.{
  Json, null, bool, str, arr, obj, Items, nil, cons, Fields, end, field, Float, real, infinite, nan,
  Outcome, ok, raised, Error, type_error, value_error, ◌>>=◌, ◌>>◌, Conversions, to_int, to_float,
  to_text, get, get_or, is_finite, unit,
}
use kilix_system_monitor.Json.Text.{take_text}
use kilix_system_monitor.Wire.{
  Counters, Readings, Pressure, ThermalSensor, FanSensor, ProcessMetrics, SystemMetrics,
  PaneMetrics, Snapshot,
}

abbrev pub zero_float : Float
zero_float = real (pos 0)

abbrev pub schema_version : ℕ
schema_version = 1

-- `max(0.0, x)`
abbrev pub max_zero : Float → Float
max_zero (real z) = real (pos (pos_part z))
max_zero (infinite positive) = if positive then infinite true else zero_float
max_zero nan = zero_float

abbrev hundred : ℕ
hundred = 100

-- `min(100.0, x)`
abbrev pub min_hundred : Float → Float
min_hundred (real (pos n)) = real (pos (min (hundred * unit) n))
min_hundred (real (negsuc n)) = real (negsuc n)
min_hundred (infinite positive) = if positive then real (pos (hundred * unit)) else infinite false
min_hundred nan = real (pos (hundred * unit))

-- `except (TypeError, ValueError): return default`; an OverflowError is not caught.
abbrev pub catching : {A : Type 0} → A → Outcome A → Outcome A
catching default (ok a) = ok a
catching default (raised type_error) = ok default
catching default (raised value_error) = ok default
catching default (raised e) = raised e

abbrev pub map_ok : {A B : Type 0} → (A → B) → Outcome A → Outcome B
map_ok f (ok a) = ok (f a)
map_ok f (raised e) = raised e

abbrev pub if_finite : Float → Float → Float
if_finite default f = if is_finite f then f else default

abbrev pub at_least : ℕ → Outcome ℕ → Outcome ℕ
at_least low n = map_ok (max low) n

abbrev pub at_most : ℕ → Outcome ℕ → Outcome ℕ
at_most high n = map_ok (min high) n

-- `value is True`
abbrev pub is_true : Json → Bool
is_true (bool b) = b
is_true value = false

abbrev pub fields_of : Json → Option Fields
fields_of (obj fields) = some fields
fields_of value = none

abbrev pub items_of : Json → Option Items
items_of (arr items) = some items
items_of value = none

abbrev pub take_items : ℕ → Items → Items
take_items zero items = nil
take_items (suc n) nil = nil
take_items (suc n) (cons value items) = cons value (take_items n items)

abbrev pub non_negative : Float → Option Float
non_negative (real (pos n)) = some (real (pos n))
non_negative (real (negsuc n)) = none
non_negative (infinite positive) = if positive then some (infinite true) else none
non_negative nan = none

module _ (c : Conversions) where
  -- `_finite_float`
  abbrev pub finite_float : Float → Json → Outcome Float
  finite_float default value = map_ok (if_finite default) (catching default (to_float c value))

  -- `_nonnegative_int`
  abbrev pub nonnegative : Json → Outcome ℕ
  nonnegative value = catching 0 (map_ok pos_part (to_int c value))

  abbrev pub positive : Json → Outcome Float
  positive value = map_ok max_zero (finite_float zero_float value)

  -- `str(value.get(name, ""))[:n]`
  abbrev pub text_in : ℕ → String → Fields → String
  text_in n name value = take_text n (to_text c (get_or name (str "") value))

  abbrev pub optional_float : Json → Outcome (Option Float)
  optional_float null = ok none
  optional_float value = map_ok (λ f. some f) (finite_float zero_float value)

  abbrev pub optional_number : Json → Outcome (Option ℕ)
  optional_number null = ok none
  optional_number value = map_ok (λ n. some n) (nonnegative value)

  abbrev pub percent : Json → Outcome (Option Float)
  percent null = ok none
  percent value = map_ok (λ f. some (max_zero (min_hundred f))) (finite_float zero_float value)

  abbrev pub read_readings : Fields → Outcome Readings
  read_readings end = ok []
  read_readings (field key number fields) = do
    n ← finite_float zero_float number
    rest ← read_readings fields
    ok ((key, n) ∷ rest)

  -- The entries whose lines are no mapping are left out.
  abbrev pub read_lines : String → Json → Outcome Pressure → Outcome Pressure
  read_lines key (obj lines) rest = do
    readings ← read_readings lines
    others ← rest
    ok ((key, readings) ∷ others)
  read_lines key value rest = rest

  abbrev pub read_resources : Fields → Outcome Pressure
  read_resources end = ok []
  read_resources (field key lines fields) = read_lines key lines (read_resources fields)

  abbrev pub read_pressure : Json → Outcome Pressure
  read_pressure (obj resources) = read_resources resources
  read_pressure value = ok []

  abbrev pub read_entries : Fields → Outcome Counters
  read_entries end = ok []
  read_entries (field key number fields) = do
    n ← nonnegative number
    rest ← read_entries fields
    ok ((key, n) ∷ rest)

  abbrev pub read_counters : Json → Outcome Counters
  read_counters (obj fields) = read_entries fields
  read_counters value = ok []

  abbrev pub optional_item : Json → Outcome (Option Float)
  optional_item null = ok none
  optional_item value = map_ok non_negative (finite_float (real (negsuc (unit - 1))) value)

  abbrev pub read_floats : Items → Outcome (List (Option Float))
  read_floats nil = ok []
  read_floats (cons value items) = do
    f ← optional_item value
    rest ← read_floats items
    ok (f ∷ rest)

  -- `optional_floats`
  abbrev pub optional_floats : Json → Outcome (List (Option Float))
  optional_floats (arr items) = read_floats (take_items 4096 items)
  optional_floats value = ok []

-- ===== src/Json/Equal.antt =====
-- Python's `==` on the values that `json.loads` gives: a Boolean is the number 0 or 1, an integer
-- and a float are compared exactly, and the order of an object's keys is not looked at.
use kilix_system_monitor.Prelude.{
  ℕ, suc, ◌-◌, ◌*◌, Bool, true, false, ◌&&◌, ◌==◌, String, str_eq, if◌then◌else◌,
}
use kilix_system_monitor.Prelude.Int.{ℤ, pos, negsuc}
use kilix_system_monitor.Json.{
  Float, real, infinite, Json, null, bool, int, float, str, arr, obj, Items, nil, cons, Fields, end,
  field, get, unit, bit,
}

abbrev same_bool : Bool → Bool → Bool
same_bool true b = b
same_bool false true = false
same_bool false false = true

abbrev same_int : ℤ → ℤ → Bool
same_int (pos m) (pos n) = m == n
same_int (negsuc m) (negsuc n) = m == n
same_int a b = false

-- The value in the unit of `real`.
abbrev scaled : ℤ → ℤ
scaled (pos n) = pos (n * unit)
scaled (negsuc n) = negsuc (suc n * unit - 1)

abbrev same_float : Float → Float → Bool
same_float (real a) (real b) = same_int a b
same_float (infinite a) (infinite b) = same_bool a b
same_float x y = false

-- A number against any value.
abbrev equals_number : Float → Json → Bool
equals_number x (bool b) = same_float x (real (pos (bit b * unit)))
equals_number x (int z) = same_float x (real (scaled z))
equals_number x (float y) = same_float x y
equals_number x value = false

abbrev pub has : String → Fields → Bool
has key end = false
has key (field name value fields) = if str_eq key name then true else has key fields

abbrev pub count : Fields → ℕ
count end = 0
count (field name value fields) = suc (count fields)

unfoldable mutual
  pub equal : Json → Json → Bool
  equal null null = true
  equal null w = false
  equal (bool b) w = equals_number (real (pos (bit b * unit))) w
  equal (int z) w = equals_number (real (scaled z)) w
  equal (float x) w = equals_number x w
  equal (str s) (str t) = str_eq s t
  equal (str s) w = false
  equal (arr items) (arr others) = equal_items items others
  equal (arr items) w = false
  equal (obj fields) (obj others) = (count fields == count others) && within fields others
  equal (obj fields) w = false

  pub equal_items : Items → Items → Bool
  equal_items nil nil = true
  equal_items nil (cons w others) = false
  equal_items (cons v items) nil = false
  equal_items (cons v items) (cons w others) = equal v w && equal_items items others

  -- Each key has an equal value in the other object.
  pub within : Fields → Fields → Bool
  within end others = true
  within (field key value fields) others =
      has key others && equal value (get key others) && within fields others

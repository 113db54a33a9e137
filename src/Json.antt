-- ===== src/Json.antt =====
-- The values that `json.loads` gives, and the conversions of Python that read them.
pub mod Text
pub mod Equal
use Prim.Native.String
use kilix_system_monitor.Prelude.{
  ℕ, zero, suc, ◌-◌, ◌≡◌, refl, ap, ◌∙◌, ◌*◌, ◌/◌, ◌^◌, String, Bool, true, false, Option, none,
  some, List, [], ◌∷◌, leb, str_eq, if◌then◌else◌,
}
use kilix_system_monitor.Prelude.Int.{ℤ, pos, negsuc, pos_part}

-- A float is a whole multiple of 2^-1074, or not finite. The two zeros are one.
pub data Float : Type 0 where
  real : ℤ → Float
  infinite : Bool → Float
  nan : Float

-- An object has each key once, in the order of insertion.
mutual
  pub data Json : Type 0 where
    null : Json
    bool : Bool → Json
    int : ℤ → Json
    float : Float → Json
    str : String → Json
    arr : Items → Json
    obj : Fields → Json

  pub data Items : Type 0 where
    nil : Items
    cons : Json → Items → Items

  pub data Fields : Type 0 where
    end : Fields
    field : String → Json → Fields → Fields

-- `value.get(name, default)`
abbrev pub get_or : String → Json → Fields → Json
get_or name default end = default
get_or name default (field key value fields) =
    if str_eq name key then value else get_or name default fields

-- `value.get(name)`
abbrev pub get : String → Fields → Json
get name fields = get_or name null fields

-- The exceptions of the code that is modelled.
pub data Error : Type 0 where
  type_error value_error overflow_error : Error
  state_unavailable state_missing snapshot_invalid redaction_violation : Error

pub data Outcome (A : Type 0) : Type 0 where
  ok : A → Outcome A
  raised : Error → Outcome A

infixl 5 ◌>>=◌ ◌>>◌
abbrev pub ◌>>=◌ : {A B : Type 0} → Outcome A → (A → Outcome B) → Outcome B
ok a >>= f = f a
raised e >>= f = raised e

abbrev pub ◌>>◌ : {B : Type 0} → Outcome (Unit {0}) → Outcome B → Outcome B
m >> k = m >>= λ _. k

pub >>=-eq-ok :
    {A B : Type 0} (m : Outcome A) (f : A → Outcome B) (b : B)
    → (m >>= f) ≡ ok b
    → (a : A) × (m ≡ ok a) × (f a ≡ ok b)
>>=-eq-ok (ok a) f b h = (a, refl, h)
>>=-eq-ok (raised e) f b h = cc

pub raised-ne-ok : {B : Type 0} (e : Error) (b : B) → ¬ (raised e ≡ ok b)
raised-ne-ok e b h = cc

-- The converse.
pub >>=-ok :
    {A B : Type 0} (m : Outcome A) (f : A → Outcome B) (a : A) (r : Outcome B)
    → m ≡ ok a
    → f a ≡ r
    → (m >>= f) ≡ r
>>=-ok (ok b) f a r h e = let same : b ≡ a = cc in ap f same ∙ e
>>=-ok (raised b) f a r h e = absurd (raised-ne-ok b a h)

-- The same for a proof that goes on with the parts.
pub >>=-elim :
    {A B P : Type 0} (m : Outcome A) (f : A → Outcome B) (b : B)
    → (m >>= f) ≡ ok b
    → ((a : A) → m ≡ ok a → f a ≡ ok b → P)
    → P
>>=-elim (ok a) f b h k = k a refl h
>>=-elim (raised e) f b h k = absurd (raised-ne-ok e b h)

-- What Python's constructors make of values that are not already of their type: a float of an
-- integer (none is OverflowError), and numbers of texts (none is ValueError), and the text of a
-- value that is none.
pub record Conversions : Type 0 where
  pub float_of_int : ℤ → Option Float
  pub float_of_text : String → Option Float
  pub int_of_text : String → Option ℤ
  pub text_of : Json → String

abbrev pub is_finite : Float → Bool
is_finite (real z) = true
is_finite (infinite b) = false
is_finite nan = false

-- The float 1.0 in the unit of `real`.
unfoldable pub unit : ℕ
unit = 2 ^ 1074

-- `int(x)` of a float cuts its fraction off.
abbrev cut : ℤ → ℤ
cut (pos n) = pos (n / unit)
cut (negsuc n) = if leb unit (suc n) then negsuc (suc n / unit - 1) else pos 0

abbrev int_of_float : Float → Outcome ℤ
int_of_float (real z) = ok (cut z)
int_of_float (infinite b) = raised overflow_error
int_of_float nan = raised value_error

abbrev or_raise : {A : Type 0} → Error → Option A → Outcome A
or_raise e none = raised e
or_raise e (some a) = ok a

abbrev pub bit : Bool → ℕ
bit true = 1
bit false = 0

module _ (c : Conversions) where
  -- `int(value)`
  abbrev pub to_int : Json → Outcome ℤ
  to_int null = raised type_error
  to_int (bool b) = ok (pos (bit b))
  to_int (int z) = ok z
  to_int (float f) = int_of_float f
  to_int (str s) = or_raise value_error (c.int_of_text s)
  to_int (arr items) = raised type_error
  to_int (obj fields) = raised type_error

  -- `float(value)`
  abbrev pub to_float : Json → Outcome Float
  to_float null = raised type_error
  to_float (bool b) = ok (real (pos (bit b * unit)))
  to_float (int z) = or_raise overflow_error (c.float_of_int z)
  to_float (float f) = ok f
  to_float (str s) = or_raise value_error (c.float_of_text s)
  to_float (arr items) = raised type_error
  to_float (obj fields) = raised type_error

  -- `str(value)`
  abbrev pub to_text : Json → String
  to_text (str s) = s
  to_text value = c.text_of value

-- ===== src/Sizer/Nvidia.antt =====
-- `parse_nvidia`: the rows that nvidia-smi prints, as codes of characters.
pub mod Accepted
use native.Mathlib.Nat.{mul-le-mul_right, pow-succ', pow-le-pow_right, mul_assoc}
use mathlib.Core.Option as Option
use kilix_system_monitor.Prelude.{
  ℕ, zero, suc, ◌+◌, ◌-◌, ◌*◌, ◌^◌, ◌≤◌, ◌<◌, ◌≡◌, refl, sym, ◌∙◌, ap, String, Bool, true, false,
  not, ◌&&◌, ◌||◌, Option, none, some, some-injective, List, [], ◌∷◌, map, leb, ltb, ◌==◌, str_eq,
  any, all, length, if◌then◌else◌, Bool-cases, Option-cases, inl, inr, arith, subst,
}
use kilix_system_monitor.Sizer.Checked.{Value, number, Checked, ok, err, ◌>>=◌}
use kilix_system_monitor.Sizer.Resources.{Device, mib, check_device, check_devices, is_device}

abbrev pub Codes : Type 0
Codes = List ℕ

-- `split` at one character: the first part, and the others.
abbrev pub add_part : ℕ → Codes × List Codes → Codes × List Codes
add_part c (part, parts) = (c ∷ part, parts)

abbrev pub new_part : Codes × List Codes → Codes × List Codes
new_part (part, parts) = ([], part ∷ parts)

abbrev pub split_at : ℕ → Codes → Codes × List Codes
split_at mark [] = ([], [])
split_at mark (c ∷ cs) =
    if c == mark then new_part (split_at mark cs) else add_part c (split_at mark cs)

abbrev pub split : ℕ → Codes → List Codes
split mark cs = let (part, parts) = split_at mark cs in part ∷ parts

-- The ends of lines in ASCII, of which a return before a line feed is one.
abbrev pub is_break : ℕ → Bool
is_break c = (leb 10 c && leb c 13) || (leb 28 c && leb c 30)

abbrev pub starts_feed : Codes → Bool
starts_feed [] = false
starts_feed (c ∷ cs) = c == 10

abbrev pub line_parts : Codes → Codes × List Codes
line_parts [] = ([], [])
line_parts (c ∷ cs) =
    let rest = line_parts cs in
    if c == 13 && starts_feed cs
    then rest
    else if is_break c
    then new_part rest
    else add_part c rest

-- A last line that is empty is none.
abbrev pub lines_of : Codes → List Codes → List Codes
lines_of [] [] = []
lines_of (c ∷ cs) [] = (c ∷ cs) ∷ []
lines_of first (line ∷ lines) = first ∷ lines_of line lines

-- `splitlines`
abbrev pub split_lines : Codes → List Codes
split_lines cs = let (line, lines) = line_parts cs in lines_of line lines

-- `str.isspace` in ASCII
abbrev pub is_space : ℕ → Bool
is_space c = (leb 9 c && leb c 13) || (leb 28 c && leb c 32)

abbrev pub lstrip : Codes → Codes
lstrip [] = []
lstrip (c ∷ cs) = if is_space c then lstrip cs else c ∷ cs

abbrev pub rstrip : Codes → Codes
rstrip [] = []
rstrip (c ∷ cs) = if is_space c && all is_space cs then [] else c ∷ rstrip cs

-- `int` of a row of digits.
abbrev pub int_of : ℕ → Codes → ℕ
int_of n [] = n
int_of n (c ∷ cs) = int_of (n * 10 + (c - b'0')) cs

-- [0-9]{1,12}
abbrev pub is_number : Codes → Bool
is_number cs = leb 1 (length cs) && leb (length cs) 12 && all (λ c. leb b'0' c && leb c b'9') cs

abbrev pub numbers : List Codes → Option (ℕ × ℕ × ℕ)
numbers (i ∷ t ∷ f ∷ []) =
    if is_number i && is_number t && is_number f
    then some (int_of 0 i, int_of 0 t, int_of 0 f)
    else none
numbers _ = none

abbrev pub device_of : ℕ → ℕ → ℕ → Device
device_of index total free = record {
  index = number index;
  total_bytes = number (total * mib);
  available_bytes = number (free * mib);
  backend = "cuda";
}

abbrev pub is_refused : List ℕ → ℕ → ℕ → ℕ → Bool
is_refused seen index total free =
    ltb 255 index || ltb total free || total == 0 || any (λ i. i == index) seen

-- One row, with the indices of the devices before it.
abbrev pub row_device : List ℕ → Option (ℕ × ℕ × ℕ) → Option (ℕ × Device)
row_device seen none = none
row_device seen (some (index, total, free)) =
    if is_refused seen index total free then none else some (index, device_of index total free)

abbrev pub add_device : Option (ℕ × Device) → (ℕ → Option (List Device)) → Option (List Device)
add_device none rest = none
add_device (some (index, device)) rest = Option.map (λ devices. device ∷ devices) (rest index)

-- `[part.strip() for part in row.split(",")]`
abbrev pub fields : Codes → List Codes
fields row = map (λ part. rstrip (lstrip part)) (split b',' row)

-- The devices of the rows; none where a row is malformed.
unfoldable pub parse_rows : List Codes → List ℕ → Option (List Device)
parse_rows [] seen = some []
parse_rows (row ∷ rows) seen =
    add_device (row_device seen (numbers (fields row))) (λ index. parse_rows rows (index ∷ seen))

abbrev pub or_none : Option (List Device) → List Device
or_none none = []
or_none (some devices) = devices

-- `parse_nvidia`
unfoldable pub parse_nvidia : Codes → List Device
parse_nvidia text = or_none (parse_rows (split_lines text) [])

-- ===== src/Sizer/Resources/Devices.antt =====
-- Validated GPU observations, and the one that a budget is made for.
use kilix_system_monitor.Prelude.{
  ℕ, ◌≤◌, ◌≡◌, ◌≢◌, refl, false, List, [], ◌∷◌, arith, ◌==◌, any, All,
}
use kilix_system_monitor.Sizer.Checked.{Value, number, ok, as_int, >>=-eq-ok}
use kilix_system_monitor.Sizer.Resources.{Device, check_device, check_devices}

-- Three integers, with free memory within a positive total.
abbrev pub IsSound : Device → Type 0
IsSound d =
    (i : ℕ) × (t : ℕ) × (f : ℕ) × (d.index ≡ number i)
    × (d.total_bytes ≡ number t)
    × (d.available_bytes ≡ number f)
    × (f ≤ t)
    × (1 ≤ t)
    × (i ≤ 255)

abbrev IsNew : List ℕ → Device → Type 0
IsNew seen d = any (λ i. i == as_int d.index) seen ≡ false

device-IsSound :
    (d : Device) (i t f : Value) (seen : List ℕ) (n : ℕ)
    → d.index ≡ i
    → d.total_bytes ≡ t
    → d.available_bytes ≡ f
    → check_device d seen ≡ ok n
    → IsSound d × IsNew seen d × (as_int d.index ≡ n)
device-IsSound d (number i) (number t) (number f) seen n p q r h =
    ((i, t, f, p, q, r, ground arith, ground arith, ground arith), ground arith, ground arith)
device-IsSound d i t f seen n p q r h = absurd (ground arith)

abbrev pub HasUniqueIndex : List Device → Type 0
HasUniqueIndex [] = Unit
HasUniqueIndex (d ∷ ds) = All (λ e. as_int e.index ≢ as_int d.index) ds × HasUniqueIndex ds

All-IsNew_split :
    (i : ℕ) (seen : List ℕ) (ds : List Device)
    → All (IsNew (i ∷ seen)) ds
    → All (IsNew seen) ds × All (λ e. as_int e.index ≢ i) ds
All-IsNew_split i seen [] h = (tt, tt)
All-IsNew_split i seen (d ∷ ds) h =
    let (new, differ) = All-IsNew_split i seen ds h.1 in
    ((ground arith, new), ((λ e. ground arith), differ))

check_devices-IsAccepted :
    (ds : List Device) (seen : List ℕ)
    → check_devices ds seen ≡ ok tt
    → All IsSound ds × HasUniqueIndex ds × All (IsNew seen) ds
unfolding check_devices
check_devices-IsAccepted [] seen h = (tt, tt, tt)
check_devices-IsAccepted (d ∷ ds) seen h =
    let (i, p, q) = >>=-eq-ok (check_device d seen) (λ i. check_devices ds (i ∷ seen)) tt h in
    let (sound, new, index) =
      device-IsSound d d.index d.total_bytes d.available_bytes seen i refl refl refl p in
    let (all_sound, unique, all_new) = check_devices-IsAccepted ds (i ∷ seen) q in
    let (still_new, differ) = All-IsNew_split i seen ds all_new in
    ((sound, all_sound), (rw index differ, unique), (new, still_new))

-- Accepted GPU observations have distinct indices up to 255, each with free memory within a
-- positive total.
pub check_devices-IsSound :
    (ds : List Device) → check_devices ds [] ≡ ok tt → All IsSound ds × HasUniqueIndex ds
check_devices-IsSound ds h =
    let (sound, unique, _) = check_devices-IsAccepted ds [] h in (sound, unique)

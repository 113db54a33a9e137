-- ===== src/Hardware/Cache/Opened.antt =====
-- A state root that was opened, and made where it was missing, opens again.
use kilix_system_monitor.Prelude.{
  suc, ◌≡◌, refl, sym, ap, ◌∙◌, subst, Bool-cases, inl, inr, Bool, true, false, not, ◌||◌, ◌==◌,
  str_eq, List, [], ◌∷◌, length, if◌then◌else◌,
}
use kilix_system_monitor.Json.{raised-ne-ok, Outcome, ok, raised, state_unavailable}
use kilix_system_monitor.Hardware.Cache.{
  Status, present, missing, refused, Component, Root, is_dots, descend, enter, behind, has_parent,
  as_made, is_own, is_outside, admit, accept, open_private_directory,
}

-- A walk that went through names the same components and goes through again.
abbrev Went : List Component → List Component × Outcome Bool → Type 0
Went before (after, raised e) = Unit
Went before (after, ok made) =
    (descend false false after ≡ (after, ok false))
    × (length after ≡ length before)
    × (has_parent after ≡ has_parent before)

behind-Went :
    (c d : Component) (cs : List Component) (w : List Component × Outcome Bool)
    → is_dots d.name ≡ false
    → d.status ≡ present
    → d.name ≡ c.name
    → Went cs w
    → Went (c ∷ cs) (behind d w)
behind-Went c d cs (after, raised e) plain here same w = tt
behind-Went c d cs (after, ok made) plain here same (again, len, parent) = (
  ap (λ b. enter false b d d.status after (λ now. descend false now after)) plain
      ∙ ap (λ s. enter false false d s after (λ now. descend false now after)) here
      ∙ ap (behind d) again,
  ap suc len,
  ap (λ n. str_eq n ".." || has_parent after) same ∙ ap (λ b. str_eq c.name ".." || b) parent,
)

enter-Went :
    (create dots : Bool) (c : Component) (status : Status) (cs : List Component)
    (go : Bool → List Component × Outcome Bool)
    → is_dots c.name ≡ dots
    → c.status ≡ status
    → ((now : Bool) → Went cs (go now))
    → Went (c ∷ cs) (enter create dots c status cs go)
enter-Went create true c status cs go h e w = tt
enter-Went create false c present cs go h e w = behind-Went c c cs (go false) h e refl (w false)
enter-Went false false c (missing can) cs go h e w = tt
enter-Went true false c (missing false) cs go h e w = tt
enter-Went true false c (missing true) cs go h e w =
    behind-Went c (record c { status = present }) cs (go true) h refl refl (w true)
enter-Went create false c refused cs go h e w = tt

descend-Went : (create made : Bool) (cs : List Component) → Went cs (descend create made cs)
descend-Went create made [] = (refl, refl, refl)
descend-Went create made (c ∷ cs) =
    enter-Went create (is_dots c.name) c c.status cs (λ now. descend create now cs) refl refl
      (λ now. descend-Went create now cs)

accept-eq : (b : Bool) → accept b ≡ ok tt → b ≡ true
accept-eq true h = refl
accept-eq false h = cc

open_private_directory-stays :
    (root : Root)
    → is_outside root ≡ false
    → descend false false root.components ≡ (root.components, ok false)
    → is_own root ≡ true
    → open_private_directory false root ≡ (root, ok tt)
unfolding open_private_directory
open_private_directory-stays root inside again own =
    ap
      (λ b.
        if b
        then (root, raised state_unavailable)
        else admit root (descend false false root.components))
      inside
    ∙ ap (admit root) again
    ∙ ap (λ b. (root, accept b)) own

is_outside-components :
    (root : Root) (components : List Component)
    → length components ≡ length root.components
    → has_parent components ≡ has_parent root.components
    → (not root.is_absolute || length components == 0 || has_parent components) ≡ is_outside root
is_outside-components root components len parent =
    ap (λ n. not root.is_absolute || n == 0 || has_parent components) len
    ∙ ap (λ b. not root.is_absolute || length root.components == 0 || b) parent

-- The root as it is behind a walk that went through.
abbrev last : Bool → Root → List Component → Root
last made root components = as_made made (record root { components = components })

last-stays :
    (made : Bool) (root : Root) (components : List Component)
    → is_outside root ≡ false
    → Went root.components (components, ok made)
    → is_own (last made root components) ≡ true
    → open_private_directory false (last made root components) ≡ (last made root components, ok tt)
last-stays true root components inside (again, len, parent) own =
    open_private_directory-stays (last true root components)
      (is_outside-components root components len parent ∙ inside) again own
last-stays false root components inside (again, len, parent) own =
    open_private_directory-stays (last false root components)
      (is_outside-components root components len parent ∙ inside) again own

admit-again :
    (root opened : Root) (w : List Component × Outcome Bool)
    → is_outside root ≡ false
    → Went root.components w
    → admit root w ≡ (opened, ok tt)
    → open_private_directory false opened ≡ (opened, ok tt)
admit-again root opened (components, raised e) inside went h =
    absurd (raised-ne-ok e tt (ap (λ x. x.1) h))
admit-again root opened (components, ok made) inside went h =
    subst (λ r. open_private_directory false r ≡ (r, ok tt)) (ap (λ x. x.0) h)
      (last-stays made root components inside went
        (accept-eq (is_own (last made root components)) (ap (λ x. x.1) h)))

branch :
    {b : Bool} (root : Root)
    → is_outside root ≡ b
    → open_private_directory true root ≡ (
        if b
        then (root, raised state_unavailable)
        else admit root (descend true false root.components))
unfolding open_private_directory
branch root e =
    ap
      (λ b.
        if b
        then (root, raised state_unavailable)
        else admit root (descend true false root.components))
      e

pub open_private_directory-again :
    (root opened : Root)
    → open_private_directory true root ≡ (opened, ok tt)
    → open_private_directory false opened ≡ (opened, ok tt)
unfolding open_private_directory
open_private_directory-again root opened h = elim (Bool-cases (is_outside root)) [
  | inl e ↦ absurd (raised-ne-ok state_unavailable tt (ap (λ x. x.1) (sym (branch root e) ∙ h)))
  | inr e ↦
      admit-again root opened (descend true false root.components) e
        (descend-Went true false root.components) (sym (branch root e) ∙ h)
]

-- ===== src/Hardware/Redaction/Clean.antt =====
-- What an accepted document holds, at any depth.
use kilix_system_monitor.Prelude.{
  ℕ, ◌≡◌, ◌↔◌, ◌⊎◌, inl, inr, refl, sym, ap, ◌∙◌, Bool-cases, String, Bool, true, false, ◌||◌, List,
  arith,
}
use kilix_system_monitor.Json.{
  Json, null, bool, int, float, str, arr, obj, Items, nil, cons, Fields, end, field, ok,
}
use kilix_system_monitor.Hardware.Redaction.{
  is_forbidden, text_identifies, contains_identifier, items_identify, fields_identify,
  validate_redaction,
}

pub data Leaf : Type 0 where
  key : String → Leaf
  text : String → Leaf

-- The keys and texts of a value, at any depth.
mutual
  pub data Occurs (l : Leaf) : Json → Type 0 where
    itself : (s : String) → l ≡ text s → Occurs l (str s)
    in_array : (items : Items) → OccursItems l items → Occurs l (arr items)
    in_object : (fields : Fields) → OccursFields l fields → Occurs l (obj fields)

  pub data OccursItems (l : Leaf) : Items → Type 0 where
    first : (value : Json) (items : Items) → Occurs l value → OccursItems l (cons value items)
    later : (value : Json) (items : Items) → OccursItems l items → OccursItems l (cons value items)

  pub data OccursFields (l : Leaf) : Fields → Type 0 where
    the_key :
        (k : String) (value : Json) (fields : Fields)
        → l ≡ key k
        → OccursFields l (field k value fields)
    the_value :
        (k : String) (value : Json) (fields : Fields)
        → Occurs l value
        → OccursFields l (field k value fields)
    after :
        (k : String) (value : Json) (fields : Fields)
        → OccursFields l fields
        → OccursFields l (field k value fields)

or-eq_false_left : (a b : Bool) → (a || b) ≡ false → a ≡ false
or-eq_false_left true b h = cc
or-eq_false_left false b h = refl

or-eq_false_right : (a b : Bool) → (a || b) ≡ false → b ≡ false
or-eq_false_right true b h = cc
or-eq_false_right false b h = h

or-cases : (a b : Bool) → (a || b) ≡ true → (a ≡ true) ⊎ (b ≡ true)
or-cases true b h = inl refl
or-cases false b h = inr h

true-ne-false : ¬ (◌≡◌ {A = Bool} true false)
true-ne-false h = cc

module _ (is_address : List ℕ → Bool) where
  -- A leaf that identifies the machine or its user.
  abbrev pub identifies : Leaf → Bool
  identifies (key k) = is_forbidden k
  identifies (text s) = text_identifies is_address s

  mutual
    unfolding contains_identifier items_identify fields_identify

    identifies_value :
        (l : Leaf) (value : Json)
        → contains_identifier is_address value ≡ false
        → Occurs l value
        → identifies l ≡ false
    identifies_value l null h o = elim o [ ]
    identifies_value l (bool b) h o = elim o [ ]
    identifies_value l (int z) h o = elim o [ ]
    identifies_value l (float f) h o = elim o [ ]
    identifies_value l (str s) h (itself _ e) = ap identifies e ∙ h
    identifies_value l (arr items) h (in_array _ o) = clean_items l items h o
    identifies_value l (obj fields) h (in_object _ o) = clean_fields l fields h o

    clean_items :
        (l : Leaf) (items : Items)
        → items_identify is_address items ≡ false
        → OccursItems l items
        → identifies l ≡ false
    clean_items l nil h o = elim o [ ]
    clean_items l (cons value items) h (first _ _ o) =
        identifies_value l value
          (or-eq_false_left (contains_identifier is_address value) (items_identify is_address items)
            h)
          o
    clean_items l (cons value items) h (later _ _ o) =
        clean_items l items
          (or-eq_false_right (contains_identifier is_address value)
            (items_identify is_address items) h)
          o

    clean_fields :
        (l : Leaf) (fields : Fields)
        → fields_identify is_address fields ≡ false
        → OccursFields l fields
        → identifies l ≡ false
    clean_fields l end h o = elim o [ ]
    clean_fields l (field k value fields) h (the_key _ _ _ e) =
        ap identifies e
        ∙ or-eq_false_left (is_forbidden k)
            (contains_identifier is_address value || fields_identify is_address fields) h
    clean_fields l (field k value fields) h (the_value _ _ _ o) =
        identifies_value l value
          (or-eq_false_left (contains_identifier is_address value)
            (fields_identify is_address fields)
            (or-eq_false_right (is_forbidden k)
              (contains_identifier is_address value || fields_identify is_address fields) h))
          o
    clean_fields l (field k value fields) h (after _ _ _ o) =
        clean_fields l fields
          (or-eq_false_right (contains_identifier is_address value)
            (fields_identify is_address fields)
            (or-eq_false_right (is_forbidden k)
              (contains_identifier is_address value || fields_identify is_address fields) h))
          o

  abbrev pub Found : Json → Type 0
  Found value = (l : Leaf) × Occurs l value × (identifies l ≡ true)

  abbrev FoundItems : Items → Type 0
  FoundItems items = (l : Leaf) × OccursItems l items × (identifies l ≡ true)

  abbrev FoundFields : Fields → Type 0
  FoundFields fields = (l : Leaf) × OccursFields l fields × (identifies l ≡ true)

  mutual
    unfolding contains_identifier items_identify fields_identify

    identified-Found : (value : Json) → contains_identifier is_address value ≡ true → Found value
    identified-Found null h = cc
    identified-Found (bool b) h = cc
    identified-Found (int z) h = cc
    identified-Found (float f) h = cc
    identified-Found (str s) h = (text s, itself s refl, h)
    identified-Found (arr items) h =
        let (l, o, e) = items_identify-Found items h in (l, in_array items o, e)
    identified-Found (obj fields) h =
        let (l, o, e) = fields_identify-Found fields h in (l, in_object fields o, e)

    items_identify-Found :
        (items : Items) → items_identify is_address items ≡ true → FoundItems items
    items_identify-Found nil h = cc
    items_identify-Found (cons value items) h =
        elim (or-cases (contains_identifier is_address value) (items_identify is_address items) h) [
          | inl here ↦ let (l, o, e) = identified-Found value here in (l, first value items o, e)
          | inr there ↦
              let (l, o, e) = items_identify-Found items there in (l, later value items o, e)
        ]

    fields_identify-Found :
        (fields : Fields) → fields_identify is_address fields ≡ true → FoundFields fields
    fields_identify-Found end h = cc
    fields_identify-Found (field k value fields) h =
        elim (or-cases (is_forbidden k)
          (contains_identifier is_address value || fields_identify is_address fields) h) [
            | inl bad ↦ (key k, the_key k value fields refl, bad)
            | inr rest ↦
                elim (or-cases (contains_identifier is_address value)
                  (fields_identify is_address fields) rest) [
                    | inl here ↦
                        let (l, o, e) = identified-Found value here in
                        (l, the_value k value fields o, e)
                    | inr there ↦
                        let (l, o, e) = fields_identify-Found fields there in
                        (l, after k value fields o, e)
                  ]
          ]

  -- A value holds an identifier exactly where one of its keys or texts, at any depth, is a
  -- forbidden name or an identifying text.
  pub contains_identifier-Found :
      (value : Json) → (contains_identifier is_address value ≡ true) ↔ Found value
  contains_identifier-Found value = (
    (λ h. identified-Found value h),
    (λ (l, o, bad). elim (Bool-cases (contains_identifier is_address value)) [
      | inl e ↦ e
      | inr e ↦ absurd (true-ne-false (sym bad ∙ identifies_value l value e o))
    ]),
  )

  -- What `validate_redaction` accepts is the document that was given, and is clean.
  pub validate_redaction-clean :
      (document : Json) (fields : Fields)
      → validate_redaction is_address document ≡ ok fields
      → (document ≡ obj fields) × (contains_identifier is_address (obj fields) ≡ false)
  unfolding validate_redaction
  validate_redaction-clean (obj fields) kept h =
      elim (Bool-cases (contains_identifier is_address (obj fields))) [
        | inl e ↦ absurd (ground arith)
        | inr e ↦
            let same : fields ≡ kept = ground arith in
            (ap obj same, ap (λ f. contains_identifier is_address (obj f)) (sym same) ∙ e)
      ]
  validate_redaction-clean document fields h = cc

-- ===== src/Value/Marshal/Canonical.antt =====
-- `json.Marshal` and what the scanner makes of its text.
use realtime_data_center.Base.{
  bytes_eq_iff, bytes_eq, Bool-cases, ℕ, ◌≡◌, refl, sym, ap, ◌∙◌, inl, inr, Bool, true, false,
  Option, none, some, Bytes, ◌||◌, ◌≢◌,
}
use realtime_data_center.Value.{
  Value, Items, Fields, null, boolean, float, text, array, object, nil, cons, end, field,
  lookup_field,
}
use realtime_data_center.Value.Marshal.{before}
use realtime_data_center.Golib.Unquote.{valid_utf8}
use realtime_data_center.Golib.Scan.{
  Syntax, Elements, Members, null_literal, bool_literal, number_literal, string_literal,
  array_literal, object_literal, no_elements, element, no_members, member,
}
use realtime_data_center.Golib.Reading.{Reads}
use realtime_data_center.Golib.Unmarshal.{to_value, to_items, to_fields}

-- A string as a JSON text can hold it.
abbrev pub IsText : Bytes → Type 0
IsText s = valid_utf8 s ≡ true

-- The key stands before all keys of the entries.
abbrev pub Below : Bytes → Fields → Type 0
Below k end = Unit {0}
Below k (field j v fs) = (before k j ≡ true) × (k ≢ j) × Below k fs

module _ (float_text : ℕ → Bytes) (parse_float : Bytes → Option ℕ) where
  -- A number whose text is a JSON number that is read back as it.
  abbrev pub IsNumber : ℕ → Type 0
  IsNumber n =
      Reads (float_text n) (number_literal (float_text n)) × (parse_float (float_text n) ≡ some n)

  unfoldable mutual
    -- A value as Unmarshal makes it, with the keys of its maps in the order in which Marshal writes them.
    pub IsCanonical : Value → Type 0
    IsCanonical null = Unit {0}
    IsCanonical (boolean b) = Unit {0}
    IsCanonical (float n) = IsNumber n
    IsCanonical (text s) = IsText s
    IsCanonical (array xs) = AllCanonical xs
    IsCanonical (object fs) = AllOrdered fs

    pub AllCanonical : Items → Type 0
    AllCanonical nil = Unit {0}
    AllCanonical (cons v xs) = IsCanonical v × AllCanonical xs

    pub AllOrdered : Fields → Type 0
    AllOrdered end = Unit {0}
    AllOrdered (field k v fs) = IsText k × IsCanonical v × Below k fs × AllOrdered fs

  unfoldable mutual
    -- The text of a value, as the scanner takes it apart.
    pub literal : Value → Syntax
    literal null = null_literal
    literal (boolean b) = bool_literal b
    literal (float n) = number_literal (float_text n)
    literal (text s) = string_literal s
    literal (array xs) = array_literal (literal_items xs no_elements)
    literal (object fs) = object_literal (literal_fields fs no_members)

    pub literal_items : Items → Elements → Elements
    literal_items nil before = before
    literal_items (cons v xs) before = literal_items xs (element before (literal v))

    pub literal_fields : Fields → Members → Members
    literal_fields end before = before
    literal_fields (field k v fs) before = literal_fields fs (member before k (literal v))

  lookup_field-Below : (k : Bytes) (fs : Fields) → Below k fs → lookup_field k fs ≡ none
  unfolding lookup_field
  lookup_field-Below k end h = refl
  lookup_field-Below k (field j v fs) (_, ne, hs) = elim (Bool-cases (bytes_eq j k)) [
    | inl e ↦ elim (ne (sym ((bytes_eq_iff j k).0 e))) [ ]
    | inr e ↦ rw e (lookup_field-Below k fs hs)
  ]

  or_false : {A : Type 0} (r : A × Bool) → (r.0, r.1 || false) ≡ r
  or_false (a, true) = refl
  or_false (a, false) = refl

  to_value_float :
      (raw : Bytes) {n : ℕ}
      → parse_float raw ≡ some n
      → to_value parse_float (number_literal raw) ≡ (float n, false)
  unfolding to_value
  to_value_float raw e =
      ap
        (λ (o : Option ℕ). elim o as (λ _. Value × Bool) [
          | none ↦ (null, true)
          | some n ↦ (float n, false)
        ])
        e

  to_items_element :
      (acc : Elements) (l : Syntax) (v : Value) (xs : Items)
      → to_value parse_float l ≡ (v, false)
      → to_items parse_float (element acc l) xs ≡ to_items parse_float acc (cons v xs)
  unfolding to_value
  to_items_element acc l v xs e =
      ap
        (λ (r : Value × Bool).
          let (items, wrong) = to_items parse_float acc (cons r.0 xs) in (items, wrong || r.1))
        e
      ∙ or_false (to_items parse_float acc (cons v xs))

  to_fields_member :
      (acc : Members) (k : Bytes) (l : Syntax) (v : Value) (fs : Fields)
      → lookup_field k fs ≡ none
      → to_value parse_float l ≡ (v, false)
      → to_fields parse_float (member acc k l) fs ≡ to_fields parse_float acc (field k v fs)
  unfolding to_value
  to_fields_member acc k l v fs absent e =
      ap
        (λ (r : Value × Bool).
          let (fields, wrong) =
            to_fields parse_float acc
              (elim (lookup_field k fs) as (λ _. Fields) [ none ↦ field k r.0 fs | some _ ↦ fs ]) in
          (fields, wrong || r.1))
        e
      ∙ or_false _
      ∙ ap
          (λ (o : Option Value).
            to_fields parse_float acc
              (elim o as (λ _. Fields) [ none ↦ field k v fs | some _ ↦ fs ]))
          absent

  mutual
    unfolding to_value literal IsCanonical

    pub to_value-literal :
        (v : Value) → IsCanonical v → to_value parse_float (literal v) ≡ (v, false)
    to_value-literal null h = refl
    to_value-literal (boolean b) h = refl
    to_value-literal (float n) (_, h) = to_value_float (float_text n) h
    to_value-literal (text s) h = refl
    to_value-literal (array xs) h = rw (to_items-literal_items xs no_elements h) refl
    to_value-literal (object fs) h = rw (to_fields-literal_fields fs no_members h) refl

    to_items-literal_items :
        (xs : Items) (acc : Elements)
        → AllCanonical xs
        → to_items parse_float (literal_items xs acc) nil ≡ to_items parse_float acc xs
    to_items-literal_items nil acc h = refl
    to_items-literal_items (cons v xs) acc (h, hs) =
        to_items-literal_items xs (element acc (literal v)) hs
        ∙ to_items_element acc (literal v) v xs (to_value-literal v h)

    to_fields-literal_fields :
        (fs : Fields) (acc : Members)
        → AllOrdered fs
        → to_fields parse_float (literal_fields fs acc) end ≡ to_fields parse_float acc fs
    to_fields-literal_fields end acc h = refl
    to_fields-literal_fields (field k v fs) acc (_, h, below, hs) =
        to_fields-literal_fields fs (member acc k (literal v)) hs
        ∙ to_fields_member acc k (literal v) v fs (lookup_field-Below k fs below)
            (to_value-literal v h)

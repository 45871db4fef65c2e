-- ===== src/Golib/Unmarshal.antt =====
-- encoding/json: what a JSON text gives in a variable. The flag says that Unmarshal returns an error;
-- the variable then holds what was stored before it or besides it. How strconv reads a float64 is a
-- parameter; `none` is for a number out of range.
use realtime_data_center.Base.{
  ℕ, ◌+◌, ◌≡◌, refl, Bool, true, false, ◌&&◌, ◌||◌, [], ◌∷◌, Option, none, some, leb, ◌==◌,
  if◌then◌else◌, Bytes, bytes_eq,
}
use realtime_data_center.Base.Int.{ℤ}
use realtime_data_center.Value.{
  Value, Items, Fields, null, boolean, float, text, array, object, nil, cons, end, field,
  lookup_field,
}
use realtime_data_center.Golib.Strconv.{atoi}
use realtime_data_center.Golib.Scan.{
  Syntax, Elements, Members, null_literal, bool_literal, number_literal, string_literal,
  array_literal, object_literal, no_elements, element, no_members, member, parse,
}

module _ (parse_float : Bytes → Option ℕ) where
  -- Of several members with the same key, the last one counts.
  unfoldable mutual
    pub to_value : Syntax → Value × Bool
    to_value null_literal = (null, false)
    to_value (bool_literal b) = (boolean b, false)
    to_value (number_literal raw) = elim (parse_float raw) [
      | none ↦ (null, true)
      | some n ↦ (float n, false)
    ]
    to_value (string_literal s) = (text s, false)
    to_value (array_literal xs) = let (items, wrong) = to_items xs nil in (array items, wrong)
    to_value (object_literal ms) = let (fields, wrong) = to_fields ms end in (object fields, wrong)

    pub to_items : Elements → Items → Items × Bool
    to_items no_elements after = (after, false)
    to_items (element xs v) after =
        let (value, bad) = to_value v in
        let (items, wrong) = to_items xs (cons value after) in (items, wrong || bad)

    pub to_fields : Members → Fields → Fields × Bool
    to_fields no_members after = (after, false)
    to_fields (member ms k v) after =
        let (value, bad) = to_value v in
        let (fields, wrong) =
          to_fields ms
            (elim (lookup_field k after) [ none ↦ field k value after | some _ ↦ after ]) in
        (fields, wrong || bad)

  -- `json.Unmarshal` into an `interface{}` that is nil.
  unfoldable pub unmarshal_value : Bytes → Value × Bool
  unfolding parse to_value
  unmarshal_value input = elim (parse input) [ none ↦ (null, true) | some s ↦ to_value s ]

-- Keys that differ from a field's name in case only name it all the same. Two letters beyond ASCII
-- fold to letters of it.
unfoldable pub fold_key : Bytes → Bytes
fold_key [] = []
fold_key (a ∷ []) = (if leb b'A' a && leb a b'Z' then a + 32 else a) ∷ []
fold_key (a ∷ b ∷ []) =
    if a == 0xc5 && b == 0xbf
    then b's' ∷ []
    else (if leb b'A' a && leb a b'Z' then a + 32 else a) ∷ fold_key (b ∷ [])
fold_key (a ∷ b ∷ c ∷ s) =
    let from_b = fold_key (b ∷ c ∷ s) in
    let from_c = fold_key (c ∷ s) in
    let rest = fold_key s in
    if a == 0xc5 && b == 0xbf
    then b's' ∷ from_c
    else if a == 0xe2 && b == 0x84 && c == 0xaa
    then b'k' ∷ rest
    else (if leb b'A' a && leb a b'Z' then a + 32 else a) ∷ from_b

abbrev pub is_key : Bytes → Bytes → Bool
is_key name key = bytes_eq (fold_key key) name

-- A field that is a string, or an int64.
abbrev pub text_field : Syntax → Bytes → Bytes × Bool
text_field (string_literal s) old = (s, false)
text_field null_literal old = (old, false)
text_field _ old = (old, true)

unfoldable pub int_field : Syntax → ℤ → ℤ × Bool
int_field (number_literal raw) old =
    let (z, problem) = atoi raw in elim problem [ none ↦ (z, false) | some _ ↦ (old, true) ]
int_field null_literal old = (old, false)
int_field _ old = (old, true)

-- How a struct type takes a member: the key and the value, and what it was before.
abbrev pub Setter : Type 0 → Type 0
Setter A = Bytes → Syntax → A → A × Bool

module _ {A : Type 0} (set : Setter A) where
  unfoldable pub set_members : Members → A → A × Bool
  set_members no_members a = (a, false)
  set_members (member ms k v) a =
      let (before, wrong) = set_members ms a in
      let (after, bad) = set k v before in (after, wrong || bad)

  unfoldable pub into_struct : Syntax → A → A × Bool
  unfolding set_members
  into_struct (object_literal ms) a = set_members ms a
  into_struct null_literal a = (a, false)
  into_struct _ a = (a, true)

  -- `json.Unmarshal` into a struct.
  unfoldable pub unmarshal : Bytes → A → A × Bool
  unfolding into_struct parse
  unmarshal input a = elim (parse input) [ none ↦ (a, true) | some s ↦ into_struct s a ]

  -- A text that is no JSON leaves the struct as it is.
  pub unmarshal-none : (input : Bytes) (a : A) → parse input ≡ none → unmarshal input a ≡ (a, true)
  unfolding unmarshal
  unmarshal-none input a e = rw (e, unmarshal) refl

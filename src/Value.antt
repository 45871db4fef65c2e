-- ===== src/Value.antt =====
-- The data of the tree: what `json.Unmarshal` puts into an `interface{}`. A float64 is its bit
-- pattern. A map is the list of its entries, in the order in which a range happens to visit them.
pub mod Maps
pub mod Marshal
use realtime_data_center.Base.{
  ℕ, zero, suc, ◌+◌, ◌≡◌, refl, Bool, true, false, List, [], ◌∷◌, Option, none, some, arith,
  if◌then◌else◌, Bytes, utf8, bytes_eq,
}
use realtime_data_center.Base.Int.{ℤ, pos, negsuc}

mutual
  pub data Value : Type 0 where
    null : Value
    boolean : Bool → Value
    float : ℕ → Value
    text : Bytes → Value
    array : Items → Value
    object : Fields → Value

  pub data Items : Type 0 where
    nil : Items
    cons : Value → Items → Items

  pub data Fields : Type 0 where
    end : Fields
    field : Bytes → Value → Fields → Fields

-- The dynamic types, as `reflect.TypeOf` tells them apart; that of nil is the nil type.
pub data Kind : Type 0 where
  nil_type bool_type float_type string_type slice_type map_type : Kind

abbrev pub kind : Value → Kind
kind null = nil_type
kind (boolean b) = bool_type
kind (float n) = float_type
kind (text s) = string_type
kind (array xs) = slice_type
kind (object fs) = map_type

abbrev pub kind_eq : Kind → Kind → Bool
kind_eq nil_type nil_type = true
kind_eq bool_type bool_type = true
kind_eq float_type float_type = true
kind_eq string_type string_type = true
kind_eq slice_type slice_type = true
kind_eq map_type map_type = true
kind_eq _ _ = false

pub kind_eq_iff : (a b : Kind) → ((kind_eq a b ≡ true) → a ≡ b) × (a ≡ b → kind_eq a b ≡ true)
kind_eq_iff a b = ground arith

-- A value that is nil as an `interface{}`.
abbrev pub is_nil : Value → Bool
is_nil null = true
is_nil _ = false

-- A map or a slice.
abbrev pub is_dir : Value → Bool
is_dir (array xs) = true
is_dir (object fs) = true
is_dir _ = false

unfoldable pub lookup_field : Bytes → Fields → Option Value
lookup_field k end = none
lookup_field k (field j v fs) = if bytes_eq j k then some v else lookup_field k fs

-- `m[k] = w` for a key that the map has.
unfoldable pub set_field : Bytes → Value → Fields → Fields
set_field k w end = end
set_field k w (field j v fs) = if bytes_eq j k then field j w fs else field j v (set_field k w fs)

abbrev pub count_items : Items → ℕ
count_items nil = 0
count_items (cons v xs) = suc (count_items xs)

unfoldable pub get_item : Items → ℕ → Option Value
get_item nil i = none
get_item (cons v xs) zero = some v
get_item (cons v xs) (suc i) = get_item xs i

-- `s[i] = w` for an index below the length.
unfoldable pub set_item : ℕ → Value → Items → Items
set_item i w nil = nil
set_item zero w (cons v xs) = cons w xs
set_item (suc i) w (cons v xs) = cons v (set_item i w xs)

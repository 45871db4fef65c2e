-- ===== src/Json.antt =====
-- component/component.go: the data tree as a JSON object that is read and written by paths.
-- `Write` changes a map or a slice in place through the reference that `Find` returns; here the
-- changed map or slice is put back at its place in the tree.
pub mod Descent
pub mod Put
pub mod Store
pub mod Write
pub mod Contract
pub mod Shape
pub mod Nodes
pub mod Listing
pub mod WriteBack
pub mod Canonical
use realtime_data_center.Base.{
  ℕ, zero, suc, ◌+◌, ◌≡◌, refl, Bool, true, false, ◌&&◌, ◌||◌, List, [], ◌∷◌, ◌++◌, Option, none,
  some, arith, ltb, ◌==◌, if◌then◌else◌, Bytes, utf8, bytes_eq, decimal,
}
use realtime_data_center.Base.Int.{ℤ, pos, negsuc}
use realtime_data_center.Path.{
  PathNode, NodePath, NodeType, path_node_string, path_node_array, type, name, number, iter, father,
  last, output2string, input_from_string,
}
use realtime_data_center.Value.{
  Value, Items, Fields, Kind, null, boolean, float, text, array, object, nil, cons, end, field,
  nil_type, bool_type, float_type, string_type, slice_type, map_type, kind, kind_eq, is_nil,
  lookup_field, set_field, count_items, get_item, set_item,
}
use realtime_data_center.Value.Marshal.{marshal}
use realtime_data_center.Visitor.{VisitorW, VisitorBasicType, ReadResult}

-- `ptr = ptr.(map[string]interface{})[input.Name()]`, and whether the walk stops.
unfoldable pub find_name : Bytes → Value → Value × Bool
find_name k (object fs) = elim (lookup_field k fs) [ some v ↦ (v, false) | none ↦ (null, true) ]
find_name k (array xs) = (null, true)
find_name k leaf = (leaf, true)

-- `Input` makes no array node with a negative index, at which Go would panic.
unfoldable pub item_at : Items → ℤ → Option Value
item_at xs (pos i) = get_item xs i
item_at xs (negsuc i) = none

unfoldable pub find_index : ℤ → Value → Value × Bool
unfolding item_at
find_index i (object fs) = (null, true)
find_index i (array xs) = elim (item_at xs i) [ some v ↦ (v, false) | none ↦ (null, true) ]
find_index i leaf = (null, true)

unfoldable pub find_step : PathNode → Value → Value × Bool
unfolding find_name find_index
find_step input ptr = elim (type input) [
  | path_node_string ↦ find_name (name input) ptr
  | path_node_array ↦ find_index (number input) ptr
]

-- nil where nothing is found.
unfoldable pub find : Value → NodePath → Value
unfolding iter find_step
find value path = iter find_step path value

pub data WriteError : Type 0 where
  not_found : NodePath → WriteError
  type_mismatch : NodePath → Kind → Kind → WriteError
  no_child : NodePath → Bytes → NodePath → WriteError
  not_an_index not_a_key : Bytes → WriteError
  index_out_of_range : NodePath → Bytes → ℕ → WriteError

-- `panic`: a method is called on the nil type, and the program ends.
pub data Outcome {ℓ} (A : Type ℓ) : Type ℓ where
  ok : A → Outcome A
  err : WriteError → Outcome A
  panic : Outcome A

-- The message of a type mismatch calls `String` on both types.
unfoldable pub mismatch : NodePath → Kind → Kind → Outcome Value
mismatch path nil_type found = panic
mismatch path given nil_type = panic
mismatch path given found = err (type_mismatch path given found)

-- The assignment to an entry of a map. The last branch assigns to the local variable `ptr` only.
unfoldable pub store_key : NodePath → Value → Fields → Outcome Value
unfolding mismatch
store_key path payload fs = elim (lookup_field (name (last path)) fs) [
  | some old ↦
      if kind_eq (kind old) (kind payload)
      then ok (object (set_field (name (last path)) payload fs))
      else mismatch path (kind payload) (kind old)
  | none ↦
      if bytes_eq (output2string path) []
      then ok (object fs)
      else err (no_child (father path) (name (last path)) path)
]

-- The assignment to an element of a slice.
unfoldable pub store_index : NodePath → Value → Items → ℤ → Outcome Value
store_index path payload xs (pos i) =
    if ltb i (count_items xs)
    then ok (array (set_item i payload xs))
    else err (index_out_of_range (father path) (name (last path)) (count_items xs))
store_index path payload xs (negsuc i) = panic

-- What `Write` makes of the map or slice that it found.
unfoldable pub store : NodePath → Value → Value → Outcome Value
unfolding store_key store_index
store path payload (object fs) = elim (type (last path)) [
  | path_node_string ↦ store_key path payload fs
  | path_node_array ↦ err (not_an_index (name (last path)))
]
store path payload (array xs) = elim (type (last path)) [
  | path_node_string ↦ err (not_a_key (name (last path)))
  | path_node_array ↦ store_index path payload xs (number (last path))
]
store path payload leaf = elim (type (last path)) [
  | path_node_string ↦ err (not_a_key (name (last path)))
  | path_node_array ↦ err (not_an_index (name (last path)))
]

-- The child of a map or slice that a node of a path names, if there is one.
unfoldable pub child : PathNode → Value → Option Value
unfolding item_at
child node (object fs) = if node.whether_array then none else lookup_field node.value fs
child node (array xs) = if node.whether_array then item_at xs node.array else none
child node _ = none

unfoldable pub set_at : Items → ℤ → Value → Items
set_at xs (pos i) w = set_item i w xs
set_at xs (negsuc i) w = xs

unfoldable pub replace_child : PathNode → Value → Value → Value
unfolding set_at
replace_child node w (object fs) = object (set_field node.value w fs)
replace_child node w (array xs) = array (set_at xs node.array w)
replace_child node w leaf = leaf

-- The tree in which the value at a path is another one. A path that leads nowhere changes nothing.
unfoldable pub put : NodePath → Value → Value → Value
unfolding child replace_child
put [] new v = new
put (node ∷ path) new v = elim (child node v) [
  | some c ↦ replace_child node (put path new c) v
  | none ↦ v
]

unfoldable pub place : NodePath → Value → Outcome Value → Outcome Value
place path v (ok new) = ok (put path new v)
place path v (err e) = err e
place path v panic = panic

unfoldable pub write : Value → VisitorW → Outcome Value
unfolding find store put place
write value visitor =
    let ptr = find value (father visitor.path) in
    if is_nil ptr
    then err (not_found (father visitor.path))
    else place (father visitor.path) value (store visitor.path visitor.payload ptr)

-- `Read`; the empty text if nothing is found.
module _ (float_text : ℕ → Bytes) where
  unfoldable pub read : Value → VisitorBasicType → ReadResult
  unfolding find
  read value visitor =
      let ptr = find value visitor.path in if is_nil ptr then [] else marshal float_text ptr

-- ===== src/Json/Nodes.antt =====
-- component/component.go: the nodes of the tree, walked from the root down.
use realtime_data_center.Base.{ℕ, ◌+◌, ◌≡◌, refl, List, [], ◌∷◌, ◌++◌, Bytes, decimal}
use realtime_data_center.Value.{
  Value, Items, Fields, null, boolean, float, text, array, object, nil, cons, end, field,
}

-- The root types of a node that is walked recursively.
pub data RootType : Type 0 where
  object_type array_type value_type : RootType

abbrev pub root_type : Value → RootType
root_type (object fs) = object_type
root_type (array xs) = array_type
root_type _ = value_type

-- `Map`: the children under their paths. For a leaf Go returns nil.
unfoldable pub map_items : Bytes → ℕ → Items → List (Bytes × Value)
map_items road i nil = []
map_items road i (cons v xs) = (road ++ b'/' ∷ decimal i, v) ∷ map_items road (i + 1) xs

unfoldable pub map_fields : Bytes → Fields → List (Bytes × Value)
map_fields road end = []
map_fields road (field k v fs) = (road ++ b'/' ∷ k, v) ∷ map_fields road fs

unfoldable pub node_map : Bytes → Value → List (Bytes × Value)
unfolding map_items map_fields
node_map road (object fs) = map_fields road fs
node_map road (array xs) = map_items road 0 xs
node_map road leaf = []

-- `IterAllPath`, with the loop over the children of `node_map` in two recursions of its own.
unfoldable mutual
  pub iter_all_path : Bytes → Value → List Bytes
  iter_all_path road null = road ∷ []
  iter_all_path road (boolean b) = road ∷ []
  iter_all_path road (float n) = road ∷ []
  iter_all_path road (text s) = road ∷ []
  iter_all_path road (array xs) = road ∷ iter_items road 0 xs
  iter_all_path road (object fs) = road ∷ iter_fields road fs

  pub iter_items : Bytes → ℕ → Items → List Bytes
  iter_items road i nil = []
  iter_items road i (cons v xs) =
      iter_all_path (road ++ b'/' ∷ decimal i) v ++ iter_items road (i + 1) xs

  pub iter_fields : Bytes → Fields → List Bytes
  iter_fields road end = []
  iter_fields road (field k v fs) = iter_all_path (road ++ b'/' ∷ k) v ++ iter_fields road fs

-- The texts that the walks from several children list, one after another.
abbrev pub walk_all : List (Bytes × Value) → List Bytes
walk_all [] = []
walk_all ((road, v) ∷ ms) = iter_all_path road v ++ walk_all ms

iter_items_lem :
    (road : Bytes) (i : ℕ) (xs : Items) → iter_items road i xs ≡ walk_all (map_items road i xs)
unfolding iter_all_path map_items
iter_items_lem road i nil = refl
iter_items_lem road i (cons v xs) = rw (iter_items_lem road (i + 1) xs)

iter_fields_lem : (road : Bytes) (fs : Fields) → iter_fields road fs ≡ walk_all (map_fields road fs)
unfolding iter_all_path map_fields
iter_fields_lem road end = refl
iter_fields_lem road (field k v fs) = rw (iter_fields_lem road fs)

-- The walk lists the node itself, and then what the walks from its children under `Map` list.
pub iter_all_path_lem :
    (road : Bytes) (v : Value) → iter_all_path road v ≡ road ∷ walk_all (node_map road v)
unfolding iter_all_path node_map
iter_all_path_lem road null = refl
iter_all_path_lem road (boolean b) = refl
iter_all_path_lem road (float n) = refl
iter_all_path_lem road (text s) = refl
iter_all_path_lem road (array xs) = rw (iter_items_lem road 0 xs)
iter_all_path_lem road (object fs) = rw (iter_fields_lem road fs)

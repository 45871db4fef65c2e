-- ===== src/Json/Canonical.antt =====
-- component/component.go: what is found in a value in canonical form.
use realtime_data_center.Base.{
  ℕ, zero, suc, inl, inr, Bool, true, false, [], ◌∷◌, Option, none, some, Bytes, bytes_eq,
  Bool-cases,
}
use realtime_data_center.Base.Int.{ℤ, pos, negsuc}
use realtime_data_center.Path.{
  PathNode, NodePath, NodeType, iter, type, path_node_string, path_node_array, name, number,
}
use realtime_data_center.Value.{
  Value, Items, Fields, null, boolean, float, text, array, object, nil, cons, end, field,
  lookup_field, get_item,
}
use realtime_data_center.Value.Marshal.Canonical.{IsCanonical, AllCanonical, AllOrdered}
use realtime_data_center.Json.{find_name, item_at, find_index, find_step, find}

module _ (float_text : ℕ → Bytes) (parse_float : Bytes → Option ℕ) where
  abbrev IsFound : Option Value → Type 0
  IsFound none = Unit {0}
  IsFound (some v) = IsCanonical float_text parse_float v

  lookup_field-IsFound :
      (k : Bytes) (fs : Fields) → AllOrdered float_text parse_float fs → IsFound (lookup_field k fs)
  unfolding lookup_field IsCanonical
  lookup_field-IsFound k end h = tt
  lookup_field-IsFound k (field j v fs) (_, h, _, hs) = elim (Bool-cases (bytes_eq j k)) [
    | inl e ↦ rw e h
    | inr e ↦ rw e (lookup_field-IsFound k fs hs)
  ]

  get_item-IsFound :
      (xs : Items) (i : ℕ) → AllCanonical float_text parse_float xs → IsFound (get_item xs i)
  unfolding get_item IsCanonical
  get_item-IsFound nil i h = tt
  get_item-IsFound (cons v xs) zero (h, hs) = h
  get_item-IsFound (cons v xs) (suc i) (h, hs) = get_item-IsFound xs i hs

  item_at-IsFound :
      (xs : Items) (i : ℤ) → AllCanonical float_text parse_float xs → IsFound (item_at xs i)
  unfolding item_at
  item_at-IsFound xs (pos i) h = get_item-IsFound xs i h
  item_at-IsFound xs (negsuc i) h = tt

  -- Where something is found it is the value; where nothing is, null.
  found_or_null :
      (o : Option Value)
      → IsFound o
      → IsCanonical float_text parse_float
          (elim o as (λ _. Value × Bool) [ some v ↦ (v, false) | none ↦ (null, true) ]).0
  unfolding IsCanonical
  found_or_null none h = tt
  found_or_null (some v) h = h

  find_name-IsCanonical :
      (k : Bytes) (v : Value)
      → IsCanonical float_text parse_float v
      → IsCanonical float_text parse_float (find_name k v).0
  unfolding find_name IsCanonical
  find_name-IsCanonical k (object fs) h =
      found_or_null (lookup_field k fs) (lookup_field-IsFound k fs h)
  find_name-IsCanonical k (array xs) h = tt
  find_name-IsCanonical k null h = tt
  find_name-IsCanonical k (boolean b) h = tt
  find_name-IsCanonical k (float n) h = h
  find_name-IsCanonical k (text s) h = h

  find_index-IsCanonical :
      (i : ℤ) (v : Value)
      → IsCanonical float_text parse_float v
      → IsCanonical float_text parse_float (find_index i v).0
  unfolding find_index IsCanonical
  find_index-IsCanonical i (object fs) h = tt
  find_index-IsCanonical i (array xs) h = found_or_null (item_at xs i) (item_at-IsFound xs i h)
  find_index-IsCanonical i null h = tt
  find_index-IsCanonical i (boolean b) h = tt
  find_index-IsCanonical i (float n) h = tt
  find_index-IsCanonical i (text s) h = tt

  find_step-IsCanonical :
      (node : PathNode) (v : Value)
      → IsCanonical float_text parse_float v
      → IsCanonical float_text parse_float (find_step node v).0
  unfolding find_step
  find_step-IsCanonical node v h = by_type (type node)
    where
      by_type :
          (t : NodeType)
          → IsCanonical float_text parse_float
              (elim t as (λ _. Value × Bool) [
                | path_node_string ↦ find_name (name node) v
                | path_node_array ↦ find_index (number node) v
              ]).0
      by_type path_node_string = find_name-IsCanonical (name node) v h
      by_type path_node_array = find_index-IsCanonical (number node) v h

  pub find-IsCanonical :
      (path : NodePath) (v : Value)
      → IsCanonical float_text parse_float v
      → IsCanonical float_text parse_float (find v path)
  unfolding find iter
  find-IsCanonical [] v h = h
  find-IsCanonical (node ∷ path) v h = elim (Bool-cases (find_step node v).1) [
    | inl e ↦ rw e (find_step-IsCanonical node v h)
    | inr e ↦ rw e (find-IsCanonical path (find_step node v).0 (find_step-IsCanonical node v h))
  ]

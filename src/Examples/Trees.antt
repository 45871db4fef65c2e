-- ===== src/Examples/Trees.antt =====
-- component/component.go: the theorems on the tree at a concrete tree.
use realtime_data_center.Base.{
  ℕ, ◌≡◌, refl, ◌≢◌, ◌↔◌, inr, false, [], ◌∷◌, ◌++◌, arith, Bytes, utf8, bytes_eq, All, decimal,
}
use realtime_data_center.Golib.Strings.{split}
use realtime_data_center.Path.{input, input_from_string, father, last, iter, whether_number_string}
use realtime_data_center.Path.Segments.{node_of}
use realtime_data_center.Path.RoundTrip.{input_from_string-IsParsed}
use realtime_data_center.Value.{
  Value, null, boolean, float, text, array, object, nil, cons, end, field, lookup_field, set_field,
  kind,
}
use realtime_data_center.Visitor.{VisitorW, set_visitor}
use realtime_data_center.Json.{
  ok, find, find_step, child, put, replace_child, store, place, write, read,
}
use realtime_data_center.Json.Descent.{Exists}
use realtime_data_center.Json.Contract.{
  write_branches, write-find, write_root, find_past_leaf, read_nil_iff,
}
use realtime_data_center.Json.Nodes.{iter_all_path, walk_all, node_map, iter_all_path_lem}
use realtime_data_center.Json.Listing.{WellKeyed, iter_all_path-Exists}

abbrev pub pump : Value
pump = object (field (utf8 "speed") (float 1) (field (utf8 "on") (boolean false) end))

abbrev pub tree : Value
tree = object (
    field (utf8 "pump") pump
      (field (utf8 "log") (array (cons (text (utf8 "a")) nil)) (field (utf8 "note") null end)))

abbrev faster : VisitorW
faster = record { basic = set_visitor (utf8 "plc") (utf8 "pump/speed"); payload = float 2 }

pub speed_Exists : Exists tree (input_from_string (utf8 "pump/speed"))
unfolding input_from_string split child lookup_field bytes_eq
speed_Exists = (_, refl, (_, refl, tt))

pub road_nodes : input_from_string (utf8 "pump/speed") ≢ []
unfolding input_from_string split
road_nodes = λ e. cc

pub same_kind : kind (find tree (input_from_string (utf8 "pump/speed"))) ≡ kind (float 2)
unfolding input_from_string split find find_step iter lookup_field bytes_eq
same_kind = refl

write_branches_example :
    write tree faster ≡ ok (put (input_from_string (utf8 "pump/speed")) (float 2) tree)
write_branches_example =
    (write_branches tree faster (input_from_string-IsParsed (utf8 "pump/speed")) road_nodes).0
      speed_Exists (inr same_kind)

abbrev pub tree' : Value
tree' = object (
    field (utf8 "pump")
      (object (field (utf8 "speed") (float 2) (field (utf8 "on") (boolean false) end)))
      (field (utf8 "log") (array (cons (text (utf8 "a")) nil)) (field (utf8 "note") null end)))

written : write tree faster ≡ ok tree'
unfolding write find find_step iter store put child replace_child place father last
    input_from_string split lookup_field set_field bytes_eq
written = refl

write-find_example : find tree' (input_from_string (utf8 "pump/speed") ++ []) ≡ find (float 2) []
write-find_example =
    (write-find tree tree' faster (input_from_string-IsParsed (utf8 "pump/speed")) road_nodes
        written).0
      []

write_root_example :
    write (object end) (record { basic = set_visitor (utf8 "plc") []; payload = tree })
    ≡ ok (object end)
write_root_example =
    write_root end (record { basic = set_visitor (utf8 "plc") []; payload = tree })
      (unfold input_from_string split in refl) (unfold lookup_field in refl)

leaf : find tree (input_from_string (utf8 "pump/speed")) ≡ float 1
unfolding input_from_string split find find_step iter lookup_field bytes_eq
leaf = refl

find_past_leaf_example :
    find tree (input_from_string (utf8 "pump/speed") ++ node_of (utf8 "unit") ∷ [])
    ≡ find tree (input_from_string (utf8 "pump/speed"))
find_past_leaf_example =
    find_past_leaf tree (input_from_string (utf8 "pump/speed")) [] (node_of (utf8 "unit"))
      speed_Exists (rw leaf refl) (unfold input in refl)

read_nil_iff_test :
    (read (λ n. decimal n ++ utf8 ".0") tree (set_visitor (utf8 "hmi") (utf8 "note")) ≡ [])
    ↔ (find tree (input_from_string (utf8 "note")) ≡ null)
read_nil_iff_test =
    read_nil_iff (λ n. decimal n ++ utf8 ".0") tree (set_visitor (utf8 "hmi") (utf8 "note")) dotted
  where
    dotted : (n : ℕ) → decimal n ++ utf8 ".0" ≢ []
    dotted n e = ends (decimal n) e
      where
        ends : (s : Bytes) → s ++ utf8 ".0" ≢ []
        ends [] e = cc
        ends (c ∷ s) e = cc

iter_all_path_lem_test : iter_all_path [] tree ≡ [] ∷ walk_all (node_map [] tree)
iter_all_path_lem_test = iter_all_path_lem [] tree

tree-WellKeyed : WellKeyed tree
unfolding whether_number_string lookup_field bytes_eq
tree-WellKeyed = (
  (((λ e. cc), omega arith), refl),
  refl,
  ((((λ e. cc), omega arith), refl), refl, tt, ((((λ e. cc), omega arith), refl), refl, tt, tt)),
  (
    (((λ e. cc), omega arith), refl),
    refl,
    (omega arith, (tt, tt)),
    ((((λ e. cc), omega arith), refl), refl, tt, tt),
  ),
)

iter_all_path-Exists_example : All (λ t. Exists tree (input_from_string t)) (iter_all_path [] tree)
iter_all_path-Exists_example = iter_all_path-Exists tree tree-WellKeyed

-- ===== src/Examples/Listeners.antt =====
-- component/affectboundary.go and component/visitor.go: the theorems on listeners at concrete ones.
use realtime_data_center.Base.{
  ◌≡◌, refl, ◌↔◌, ◌⊎◌, inr, true, false, List, [], ◌∷◌, ◌++◌, none, some, arith, if◌then◌else◌,
  utf8, bytes_eq, bytes_eq_refl, length, lookup,
}
use realtime_data_center.Base.Int.{pos}
use realtime_data_center.Golib.Strings.{split}
use realtime_data_center.Path.{input_from_string, output2string}
use realtime_data_center.Path.Segments.{node_of}
use realtime_data_center.Path.RoundTrip.{input_from_string-IsParsed}
use realtime_data_center.Visitor.{
  ReadBufferResult, VisitorBasicType, VisitorRwaitAndBuffer, insert_update, set_result, set_visitor,
  visitor_string,
}
use realtime_data_center.Visitor.Buffer.{
  insert_update_lem, insert_all, read_all, read_all-insert_all,
}
use realtime_data_center.Visitor.Keys.{
  separator, visitor_string-injective, visitor_string_collision,
}
use realtime_data_center.Affect.{LongPollReadControl, whether_contain, apply_for, affect}
use realtime_data_center.Affect.Contain.{Begins, whether_contain_iff, whether_contain_sibling}
use realtime_data_center.Affect.Registry.{
  Inv, registered, apply_for_lem, lookup-affect, affect_complete,
}

abbrev pub hmi : VisitorBasicType
hmi = set_visitor (utf8 "hmi") (utf8 "pump/speed")

abbrev pub listener : VisitorRwaitAndBuffer
listener = record { read_num = pos 0; write_num = pos 0; basic = hmi; buffer = [] }

abbrev pub table : LongPollReadControl
table = (visitor_string hmi, listener) ∷ []

pub table-Inv : Inv table
unfolding lookup
table-Inv = record {
  distinct = (refl, tt);
  entries = ((refl, omega arith, input_from_string-IsParsed (utf8 "pump/speed")), tt);
}

pub there : lookup (visitor_string hmi) table ≡ some listener
unfolding lookup
there = rw (bytes_eq_refl (visitor_string hmi))

below : hmi.path ≡ input_from_string (utf8 "pump") ++ input_from_string (utf8 "speed")
unfolding input_from_string split
below = refl

affect_complete_example :
    lookup (visitor_string hmi) (affect (output2string (input_from_string (utf8 "pump"))) table)
    ≡ some listener
affect_complete_example =
    affect_complete (visitor_string hmi) table listener (input_from_string (utf8 "pump"))
      (input_from_string (utf8 "speed")) table-Inv there (inr below)

lookup-affect_test :
    lookup (visitor_string hmi) (affect (utf8 "log") table)
    ≡ elim (lookup (visitor_string hmi) table) [
      | some v ↦ if whether_contain (utf8 "log") (output2string v.path) then some v else none
      | none ↦ none
    ]
lookup-affect_test = lookup-affect (utf8 "log") (visitor_string hmi) table table-Inv

apply_for_lem_test :
    (lookup (utf8 "x") (apply_for hmi table).0 ≡ (
      if bytes_eq (visitor_string hmi) (utf8 "x")
      then some (registered hmi (lookup (visitor_string hmi) table))
      else lookup (utf8 "x") table))
    × ((apply_for hmi table).1 ≡ some (registered hmi (lookup (visitor_string hmi) table)))
apply_for_lem_test = apply_for_lem hmi table (utf8 "x")

whether_contain_iff_test :
    (whether_contain (utf8 "a/b") (utf8 "a") ≡ true)
    ↔ (Begins (utf8 "a") (utf8 "a/b") ⊎ Begins (utf8 "a/b") (utf8 "a"))
whether_contain_iff_test = whether_contain_iff (utf8 "a/b") (utf8 "a")

whether_contain_sibling_example :
    whether_contain
      (output2string (node_of (utf8 "pump") ∷ []))
      (output2string (node_of (utf8 "pump" ++ utf8 "2") ∷ []))
    ≡ true
whether_contain_sibling_example = whether_contain_sibling [] (utf8 "pump") (utf8 "2")

insert_update_lem_test :
    ((insert_update
        (record { taken = 0; late = false })
        listener
        (utf8 "3")
        (utf8 "plc")
        (pos 9)).0.buffer
      ≡ [] ++ set_result (utf8 "plc") (utf8 "3") (pos 9) ∷ [])
    × ((insert_update
          (record { taken = 0; late = false })
          listener
          (utf8 "3")
          (utf8 "plc")
          (pos 9)).1
        ≡ none)
insert_update_lem_test =
    (insert_update_lem (record { taken = 0; late = false }) listener (utf8 "3") (utf8 "plc") (pos 9)
        (omega arith)).3
      refl (omega arith)

abbrev two : List ReadBufferResult
two = set_result (utf8 "plc") (utf8 "3") (pos 9) ∷ set_result (utf8 "hmi") (utf8 "4") (pos 10) ∷ []

read_all-insert_all_example : read_all (length two) (insert_all two listener) ≡ two
read_all-insert_all_example = read_all-insert_all two listener refl (omega arith)

abbrev slashed : VisitorBasicType
slashed = set_visitor (utf8 "hmi") (utf8 "/pump//speed/")

same_key : visitor_string slashed ≡ visitor_string hmi
unfolding visitor_string output2string input_from_string split
same_key = refl

visitor_string-injective_example : (slashed.name ≡ hmi.name) × (slashed.path ≡ hmi.path)
visitor_string-injective_example =
    visitor_string-injective slashed hmi (omega arith) (omega arith)
      (input_from_string-IsParsed (utf8 "/pump//speed/"))
      (input_from_string-IsParsed (utf8 "pump/speed")) same_key

visitor_string_collision_example :
    visitor_string (set_visitor (utf8 "hmi") (utf8 "a" ++ (separator ++ utf8 "b")))
    ≡ visitor_string (set_visitor (utf8 "hmi" ++ (separator ++ utf8 "a")) (utf8 "b"))
visitor_string_collision_example =
    visitor_string_collision (utf8 "hmi") (utf8 "a") (utf8 "b") ((λ e. cc), omega arith)
      ((λ e. cc), omega arith)

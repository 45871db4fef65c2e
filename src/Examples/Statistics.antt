-- ===== src/Examples/Statistics.antt =====
-- component/preformance.go: the theorems on the statistics at concrete ones.
use realtime_data_center.Base.{
  ℕ, ◌+◌, ◌*◌, ◌/◌, ◌≤◌, ◌<◌, ◌≡◌, refl, [], ◌∷◌, some, arith, if◌then◌else◌, utf8, bytes_eq,
  lookup, get_elem?,
}
use realtime_data_center.Base.Int.{pos, add64}
use realtime_data_center.Performance.{
  SingleNodePerformance, new_cycle, record_reason, new_single_node_performance, add, fail,
}
use realtime_data_center.Performance.Ring.{
  IsRing, new_cycle-IsRing, record_reason_lem, record_all, record_all_recent,
}
use realtime_data_center.Performance.Counts.{new_single_node_performance-IsNode, count_of, fail_lem}
use realtime_data_center.Performance.Mean.{Stands, add_lem, add_one_mean_le, add_many_mean}

record_reason_lem_test : IsRing (record_reason (utf8 "late") new_cycle)
record_reason_lem_test = (record_reason_lem new_cycle (utf8 "late") new_cycle-IsRing).0

record_all_recent_test :
    get_elem? (record_all (utf8 "late" ∷ utf8 "lost" ∷ []) new_cycle).records 0 ≡ some (utf8 "late")
record_all_recent_test =
    record_all_recent new_cycle (utf8 "late") (utf8 "lost" ∷ []) new_cycle-IsRing (omega arith)

fail_lem_test :
    (lookup (utf8 "b") (fail (utf8 "a") (pos 2) (utf8 "late") new_single_node_performance).fail_num
      ≡ (if bytes_eq (utf8 "a") (utf8 "b")
          then some (add64 (count_of (lookup (utf8 "a") [])) (pos 2))
          else lookup (utf8 "b") []))
    × (get_elem?
          (fail (utf8 "a") (pos 2) (utf8 "late") new_single_node_performance).failcycle.records
          0
        ≡ some (utf8 "late"))
fail_lem_test =
    fail_lem (utf8 "a") (utf8 "b") (pos 2) (utf8 "late") new_single_node_performance
      new_single_node_performance-IsNode

-- Ten operations of 30 nanoseconds each.
abbrev ten : SingleNodePerformance
ten = record new_single_node_performance {
  operation_num = pos 10;
  min_opt = pos 30;
  average_opt = pos 30;
  max_opt = pos 30;
}

add_lem_test : Stands (add ten (pos 2) (pos 80) 7) 12 ((30 * 11 + 80) / 12) 30 40
add_lem_test = add_lem ten 10 30 30 30 1 80 7 (refl, refl, refl, refl) (omega arith) (omega arith)

add_one_mean_le_example :
    (a' : ℕ) × (hi' : ℕ) × ((add ten (pos 1) (pos 52) 7).average_opt ≡ pos a')
    × ((add ten (pos 1) (pos 52) 7).max_opt ≡ pos hi')
    × (a' ≤ hi')
add_one_mean_le_example =
    add_one_mean_le ten 10 30 30 30 52 7 (refl, refl, refl, refl) (omega arith) (omega arith)
      (omega arith)

add_many_mean_example :
    (a' : ℕ) × ((add ten (pos 10) (pos 300) 7).average_opt ≡ pos a')
    × ((add ten (pos 10) (pos 300) 7).max_opt ≡ pos 30)
    × (30 < a')
add_many_mean_example =
    add_many_mean ten 10 30 9 7 (refl, refl, refl, refl) (omega arith) (omega arith) (omega arith)

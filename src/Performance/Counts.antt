-- ===== src/Performance/Counts.antt =====
-- component/preformance.go: the counts, the extremes and the mean of a kind of operation.
use realtime_data_center.Base.{
  ℕ, zero, suc, ◌≡◌, refl, ap, ◌∙◌, List, [], ◌∷◌, Option, none, some, arith, if◌then◌else◌, length,
  length-replicate, get_elem?, Bool-cases, Bytes, bytes_eq, lookup, lookup-insert, Option-cases,
  inl, inr, Dict,
}
use realtime_data_center.Base.Int.{ℤ, pos, add64, ltb_ℤ}
use realtime_data_center.Performance.{
  SingleNodePerformance, new_single_node_performance, add, add_hour, add_count, fail,
}
use realtime_data_center.Performance.Ring.{IsRing, new_cycle-IsRing, record_reason_lem}

-- The rings are sound, and there is a count for each hour of the day.
pub record IsNode (n : SingleNodePerformance) : Type 0 where
  pub fails : IsRing n.failcycle
  pub warns : IsRing n.warncycle
  pub hours : length n.oneday_opt ≡ 24

pub new_single_node_performance-IsNode : IsNode new_single_node_performance
new_single_node_performance-IsNode = record {
  fails = new_cycle-IsRing;
  warns = new_cycle-IsRing;
  hours = length-replicate {A = ℤ} 24 (pos 0);
}

length-add_hour : (h : ℕ) (n : ℤ) (cs : List ℤ) → length (add_hour h n cs) ≡ length cs
unfolding add_hour
length-add_hour h n [] = refl
length-add_hour zero n (c ∷ cs) = refl
length-add_hour (suc h) n (c ∷ cs) = ap suc (length-add_hour h n cs)

pub add-IsNode :
    (n : SingleNodePerformance) (k c : ℤ) (hour : ℕ) → IsNode n → IsNode (add n k c hour)
unfolding add
add-IsNode n k c hour i = elim (Bool-cases (ltb_ℤ (pos 0) k)) [
  | inl e ↦
      rw (e, add)
        (record {
          fails = i.fails;
          warns = i.warns;
          hours = length-add_hour hour k n.oneday_opt ∙ i.hours;
        })
  | inr e ↦ rw (e, add) i
]

pub fail-IsNode :
    (failtype : Bytes) (k : ℤ) (reason : Bytes) (n : SingleNodePerformance)
    → IsNode n
    → IsNode (fail failtype k reason n)
unfolding fail
fail-IsNode failtype k reason n i = record {
  fails = (record_reason_lem n.failcycle reason i.fails).0;
  warns = i.warns;
  hours = i.hours;
}

-- The count so far, 0 for a key that is not there.
abbrev pub count_of : Option ℤ → ℤ
count_of none = pos 0
count_of (some c) = c

lookup-add_count :
    (k j : Bytes) (n : ℤ) (m : Dict ℤ)
    → lookup j (add_count k n m)
      ≡ (if bytes_eq k j then some (add64 (count_of (lookup k m)) n) else lookup j m)
unfolding add_count
lookup-add_count k j n m = elim (Option-cases (lookup k m)) [
  | inl e ↦ rw (e, add_count) (lookup-insert k j _ m)
  | inr (c, e) ↦ rw (e, add_count) (lookup-insert k j _ m)
]

-- A failure counts for its type and for no other, and its reason takes the next slot of the ring.
pub fail_lem :
    (failtype j : Bytes) (k : ℤ) (reason : Bytes) (n : SingleNodePerformance)
    → IsNode n
    → (lookup j (fail failtype k reason n).fail_num ≡ (
        if bytes_eq failtype j
        then some (add64 (count_of (lookup failtype n.fail_num)) k)
        else lookup j n.fail_num))
      × (get_elem? (fail failtype k reason n).failcycle.records n.failcycle.cycle_num ≡ some reason)
unfolding fail
fail_lem failtype j k reason n i = (
  lookup-add_count failtype j k n.fail_num,
  (record_reason_lem n.failcycle reason i.fails).2 n.failcycle.cycle_num ∙ ground arith,
)

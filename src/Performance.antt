-- ===== src/Performance.antt =====
-- component/preformance.go: the statistics of the kernel. The hour of the day is an argument where
-- the clock is read; a nil map of counts and an empty one are read and written alike.
pub mod Ring
pub mod Counts
pub mod Mean
use realtime_data_center.Base.{
  ℕ, zero, suc, ◌+◌, ◌≡◌, refl, Bool, true, false, ◌&&◌, ◌||◌, List, [], ◌∷◌, ◌++◌, Option, none,
  some, arith, ltb, leb, ◌==◌, if◌then◌else◌, set, replicate, Bytes, utf8, bytes_eq, Dict, lookup,
  insert,
}
use realtime_data_center.Base.Int.{ℤ, pos, negsuc, ltb_ℤ, add64, sub64, mul64, div64}

abbrev pub cycle_size : ℕ
cycle_size = 100

pub record CycleRecord : Type 0 where
  pub records : List Bytes
  pub cycle_num : ℕ

abbrev pub new_cycle : CycleRecord
new_cycle = record { records = replicate cycle_size []; cycle_num = 0 }

-- The method `record`.
unfoldable pub record_reason : Bytes → CycleRecord → CycleRecord
record_reason reason cycle =
    let next = cycle.cycle_num + 1 in
    record {
      records = set cycle.records cycle.cycle_num reason;
      cycle_num = if leb cycle_size next then 0 else next;
    }

get_loop : List Bytes → Bytes → Bytes
get_loop [] ret = ret
get_loop (r ∷ records) ret =
    let rest = get_loop records (ret ++ (utf8 "-----------------\n" ++ (r ++ utf8 "\n"))) in
    if bytes_eq r [] then ret else rest

unfoldable pub get_record : CycleRecord → Bytes
unfolding get_loop
get_record cycle = get_loop cycle.records []

pub record SingleNodePerformance : Type 0 where
  pub operation_num : ℤ
  pub warn_num : Dict ℤ
  pub warn_record : Bytes
  pub warncycle : CycleRecord
  pub fail_num : Dict ℤ
  pub fail_record : Bytes
  pub failcycle : CycleRecord
  pub min_opt : ℤ
  pub average_opt : ℤ
  pub max_opt : ℤ
  pub oneday_opt : List ℤ

abbrev pub new_single_node_performance : SingleNodePerformance
new_single_node_performance = record {
  operation_num = pos 0;
  warn_num = [];
  warn_record = [];
  warncycle = new_cycle;
  fail_num = [];
  fail_record = [];
  failcycle = new_cycle;
  min_opt = pos 0;
  average_opt = pos 0;
  max_opt = pos 0;
  oneday_opt = replicate 24 (pos 0);
}

unfoldable pub recreate : SingleNodePerformance → SingleNodePerformance
unfolding get_record
recreate node = record node {
  warn_record = get_record node.warncycle;
  fail_record = get_record node.failcycle;
}

abbrev pub is_zero : ℤ → Bool
is_zero (pos zero) = true
is_zero _ = false

-- The count of the hour `h`, with `n` more.
unfoldable pub add_hour : ℕ → ℤ → List ℤ → List ℤ
unfolding add64
add_hour h n [] = []
add_hour zero n (c ∷ cs) = add64 c n ∷ cs
add_hour (suc h) n (c ∷ cs) = c ∷ add_hour h n cs

unfoldable pub add : SingleNodePerformance → ℤ → ℤ → ℕ → SingleNodePerformance
unfolding add_hour
add node number_operation cost_time hour =
    let opt_num = add64 node.operation_num number_operation in
    let average_cost_time = div64 cost_time number_operation in
    if ltb_ℤ (pos 0) number_operation
    then record node {
      operation_num = opt_num;
      min_opt =
          if ltb_ℤ average_cost_time node.min_opt || is_zero node.min_opt
          then average_cost_time
          else node.min_opt;
      max_opt = if ltb_ℤ node.max_opt average_cost_time then average_cost_time else node.max_opt;
      average_opt =
          div64 (add64 (mul64 node.average_opt (sub64 opt_num (pos 1))) cost_time) opt_num;
      oneday_opt = add_hour hour number_operation node.oneday_opt;
    }
    else node

-- `m[k] += n`, where a missing key counts from 0.
unfoldable pub add_count : Bytes → ℤ → Dict ℤ → Dict ℤ
unfolding add64
add_count k n m = elim (lookup k m) [
  | some c ↦ insert k (add64 c n) m
  | none ↦ insert k (add64 (pos 0) n) m
]

-- The methods `failRecord` and `warnRecord`; the log line is left out.
unfoldable pub fail : Bytes → ℤ → Bytes → SingleNodePerformance → SingleNodePerformance
unfolding add_count record_reason
fail failtype number_fail reason node = record node {
  fail_num = add_count failtype number_fail node.fail_num;
  failcycle = record_reason reason node.failcycle;
}

unfoldable pub warn : Bytes → ℤ → Bytes → SingleNodePerformance → SingleNodePerformance
unfolding add_count record_reason
warn warntype number_warn reason node = record node {
  warn_num = add_count warntype number_warn node.warn_num;
  warncycle = record_reason reason node.warncycle;
}

pub record KernalPerformance : Type 0 where
  pub start_time : ℤ
  pub write_performance : SingleNodePerformance
  pub long_poll_read_performance : SingleNodePerformance
  pub write_affected_performance : SingleNodePerformance
  pub register_performance : SingleNodePerformance
  pub unblock_read_performance : SingleNodePerformance

abbrev pub get_kernal_performance : ℤ → KernalPerformance
get_kernal_performance now = record {
  start_time = now;
  write_performance = new_single_node_performance;
  long_poll_read_performance = new_single_node_performance;
  write_affected_performance = new_single_node_performance;
  register_performance = new_single_node_performance;
  unblock_read_performance = new_single_node_performance;
}

-- What `String` does to the statistics before it prints them.
unfoldable pub recreate_all : KernalPerformance → KernalPerformance
unfolding recreate
recreate_all p = record {
  start_time = p.start_time;
  write_performance = recreate p.write_performance;
  long_poll_read_performance = recreate p.long_poll_read_performance;
  write_affected_performance = recreate p.write_affected_performance;
  register_performance = recreate p.register_performance;
  unblock_read_performance = recreate p.unblock_read_performance;
}

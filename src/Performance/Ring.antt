-- ===== src/Performance/Ring.antt =====
-- component/preformance.go: the ring of the last hundred reasons.
use realtime_data_center.Base.{
  ℕ, zero, suc, ◌+◌, ◌-◌, ◌%◌, ◌≤◌, ◌<◌, ◌≡◌, refl, ◌∙◌, List, [], ◌∷◌, some, arith, ◌==◌,
  if◌then◌else◌, length, set, get_elem?, length-set, length-replicate, Bytes,
}
use realtime_data_center.Performance.{CycleRecord, cycle_size, new_cycle, record_reason}

get_elem?-set :
    (xs : List Bytes) (i j : ℕ) (v : Bytes)
    → i < length xs
    → get_elem? (set xs i v) j ≡ (if i == j then some v else get_elem? xs j)
get_elem?-set [] i j v h = elim h [ ]
get_elem?-set (x ∷ xs) zero zero v h = refl
get_elem?-set (x ∷ xs) zero (suc j) v h = ground arith
get_elem?-set (x ∷ xs) (suc i) zero v h = ground arith
get_elem?-set (x ∷ xs) (suc i) (suc j) v h = ground (arith, get_elem?-set xs i j v)

-- A hundred slots, the next of which is one of them: the array is never indexed out of range.
pub record IsRing (c : CycleRecord) : Type 0 where
  pub slots : length c.records ≡ cycle_size
  pub next : c.cycle_num < cycle_size

pub new_cycle-IsRing : IsRing new_cycle
new_cycle-IsRing = record { slots = length-replicate {A = Bytes} cycle_size []; next = omega arith }

-- A recorded reason fills the next slot and leaves the others; the slots are taken in turn.
pub record_reason_lem :
    (c : CycleRecord) (reason : Bytes)
    → IsRing c
    → IsRing (record_reason reason c)
      × ((record_reason reason c).cycle_num ≡ (c.cycle_num + 1) % cycle_size)
      × ((j : ℕ)
          → get_elem? (record_reason reason c).records j
            ≡ (if c.cycle_num == j then some reason else get_elem? c.records j))
unfolding record_reason
record_reason_lem c reason r = (
  record { slots = length-set c.records c.cycle_num reason ∙ r.slots; next = ground arith },
  ground arith,
  λ j. get_elem?-set c.records c.cycle_num j reason (omega (arith, r.slots, r.next)),
)

unfoldable pub record_all : List Bytes → CycleRecord → CycleRecord
record_all [] c = c
record_all (r ∷ rs) c = record_all rs (record_reason r c)

-- A slot stays as it is until the ring comes round to it.
record_all_keeps :
    (rs : List Bytes) (c : CycleRecord) (j : ℕ)
    → IsRing c
    → j < cycle_size
    → length rs ≤ (j + cycle_size - c.cycle_num) % cycle_size
    → get_elem? (record_all rs c).records j ≡ get_elem? c.records j
unfolding record_all
record_all_keeps [] c j r h far = refl
record_all_keeps (x ∷ rs) c j r h far =
    let (r', next, slots) = record_reason_lem c x r in
    record_all_keeps rs (record_reason x c) j r' h (omega (arith, next, r.next))
    ∙ slots j
    ∙ ground (arith, r.next)

-- A reason is still in its slot as long as fewer than a hundred came after it.
pub record_all_recent :
    (c : CycleRecord) (reason : Bytes) (rs : List Bytes)
    → IsRing c
    → length rs < cycle_size
    → get_elem? (record_all (reason ∷ rs) c).records c.cycle_num ≡ some reason
unfolding record_all
record_all_recent c reason rs r h =
    let (r', next, slots) = record_reason_lem c reason r in
    record_all_keeps rs (record_reason reason c) c.cycle_num r' r.next (omega (arith, next, r.next))
    ∙ slots c.cycle_num
    ∙ ground arith

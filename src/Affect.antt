-- ===== src/Affect.antt =====
-- component/affectboundary.go: the listeners, and those that a write affects. The sync.Map of the
-- listeners is a dictionary; a pointer to a listener is its key.
pub mod Contain
pub mod Registry
use realtime_data_center.Base.{
  ℕ, zero, suc, ◌≡◌, refl, Bool, true, false, List, [], ◌∷◌, Option, none, some, arith, ltb, ◌==◌,
  if◌then◌else◌, length, map, Bytes, utf8, Dict, lookup, insert, delete, filter_dict,
}
use realtime_data_center.Path.{output2string}
use realtime_data_center.Visitor.{
  VisitorBasicType, VisitorRwaitAndBuffer, visitor_string, new_visitor_rwait_and_buffer,
}

-- The loop over the first bytes of both texts. Neither text is shorter than that.
contain_loop : ℕ → Bytes → Bytes → Bool
contain_loop zero a b = true
contain_loop (suc n) (x ∷ a) (y ∷ b) = if x == y then contain_loop n a b else false
contain_loop (suc n) _ _ = false

unfoldable pub whether_contain : Bytes → Bytes → Bool
unfolding contain_loop
whether_contain a b =
    let len_a = length a in
    let len_b = length b in contain_loop (if ltb len_b len_a then len_b else len_a) a b

abbrev pub LongPollReadControl : Type 0
LongPollReadControl = Dict VisitorRwaitAndBuffer

-- A listener that is there keeps its buffer and counts.
unfoldable pub apply_for :
    VisitorBasicType → LongPollReadControl → LongPollReadControl × Option VisitorRwaitAndBuffer
apply_for input wait =
    let key = visitor_string input in
    let wait' : LongPollReadControl = elim (lookup key wait) [
      | some visitor ↦ insert key (record visitor { basic = input }) wait
      | none ↦ insert key (new_visitor_rwait_and_buffer input) wait
    ] in
    (wait', lookup key wait')

unfoldable pub all_keys : LongPollReadControl → List Bytes
all_keys = map (λ e. e.0)

unfoldable pub remove : Bytes → LongPollReadControl → LongPollReadControl
remove key wait = delete key wait

unfoldable pub affect : Bytes → LongPollReadControl → Dict VisitorRwaitAndBuffer
affect input = filter_dict (λ e. whether_contain input (output2string e.1.path))

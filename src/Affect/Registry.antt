-- ===== src/Affect/Registry.antt =====
-- component/affectboundary.go: the table of listeners.
use realtime_data_center.Base.{
  ◌≤◌, ◌≡◌, refl, ap, ◌∙◌, ◌⊎◌, inl, inr, true, ◌++◌, Option, none, some, arith, if◌then◌else◌,
  length, Bytes, bytes_eq, bytes_eq_refl, lookup, insert, lookup-insert, All, All-insert,
  All-delete, All-lookup, Distinct, insert-Distinct, delete-Distinct, lookup-filter_dict,
  Option-cases,
}
use realtime_data_center.Path.{NodePath, output2string}
use realtime_data_center.Path.RoundTrip.{IsParsed}
use realtime_data_center.Visitor.{
  VisitorBasicType, VisitorRwaitAndBuffer, visitor_string, new_visitor_rwait_and_buffer,
  buffer_capacity,
}
use realtime_data_center.Affect.{LongPollReadControl, whether_contain, apply_for, remove, affect}
use realtime_data_center.Affect.Contain.{whether_contain-output2string}

-- Every listener stands under its own text, once; its path is a parsed one, and its buffer holds no
-- more than its capacity.
abbrev pub Entry : Bytes × VisitorRwaitAndBuffer → Type 0
Entry e =
    (e.0 ≡ visitor_string e.1.basic) × (length e.1.buffer ≤ buffer_capacity) × IsParsed e.1.path

pub record Inv (wait : LongPollReadControl) : Type 0 where
  pub distinct : Distinct wait
  pub entries : All Entry wait

-- The listener that a request for one leaves in the table.
unfoldable pub registered : VisitorBasicType → Option VisitorRwaitAndBuffer → VisitorRwaitAndBuffer
registered input none = new_visitor_rwait_and_buffer input
registered input (some visitor) = record visitor { basic = input }

apply_for-insert :
    (input : VisitorBasicType) (wait : LongPollReadControl)
    → (apply_for input wait).0
      ≡ insert (visitor_string input) (registered input (lookup (visitor_string input) wait)) wait
unfolding apply_for registered
apply_for-insert input wait = ground arith

-- A request for a listener is answered by the listener that then stands under its key: a new one with
-- an empty buffer, or the old one with its buffer and counts. The other listeners stay as they are.
pub apply_for_lem :
    (input : VisitorBasicType) (wait : LongPollReadControl) (k : Bytes)
    → let key = visitor_string input in
      let visitor = registered input (lookup key wait) in
      (lookup k (apply_for input wait).0 ≡ (if bytes_eq key k then some visitor else lookup k wait))
      × ((apply_for input wait).1 ≡ some visitor)
apply_for_lem input wait k = (
  ap (lookup k) (apply_for-insert input wait) ∙ lookup-insert (visitor_string input) k _ wait,
  found,
)
  where
    found : (apply_for input wait).1 ≡ some (registered input (lookup (visitor_string input) wait))
    found =
        unfold apply_for in
        refl
        ∙ ap (lookup (visitor_string input)) (apply_for-insert input wait)
        ∙ lookup-insert (visitor_string input) (visitor_string input) _ wait
        ∙ rw bytes_eq_refl

registered-Entry :
    (input : VisitorBasicType) (wait : LongPollReadControl)
    → IsParsed input.path
    → All Entry wait
    → Entry (visitor_string input, registered input (lookup (visitor_string input) wait))
unfolding registered new_visitor_rwait_and_buffer
registered-Entry input wait p a = elim (Option-cases (lookup (visitor_string input) wait)) [
  | inl e ↦ rw e (refl, omega arith, p)
  | inr (v, e) ↦ rw e (refl, (All-lookup Entry (visitor_string input) wait a e).1, p)
]

pub apply_for-Inv :
    (input : VisitorBasicType) (wait : LongPollReadControl)
    → IsParsed input.path
    → Inv wait
    → Inv (apply_for input wait).0
apply_for-Inv input wait p v = rw apply_for-insert (record {
  distinct = insert-Distinct (visitor_string input) _ wait v.distinct;
  entries =
      All-insert Entry (visitor_string input) _ wait
        (λ j e. rw e (registered-Entry input wait p v.entries)) v.entries;
})

pub remove-Inv : (key : Bytes) (wait : LongPollReadControl) → Inv wait → Inv (remove key wait)
unfolding remove
remove-Inv key wait v = record {
  distinct = delete-Distinct key wait v.distinct;
  entries = All-delete Entry key wait v.entries;
}

-- The affected listeners are those whose path's text contains, or is contained in, the given one.
pub lookup-affect :
    (input k : Bytes) (wait : LongPollReadControl)
    → Inv wait
    → lookup k (affect input wait) ≡ elim (lookup k wait) [
      | some v ↦ if whether_contain input (output2string v.path) then some v else none
      | none ↦ none
    ]
unfolding affect
lookup-affect input k wait v = lookup-filter_dict _ k wait v.distinct

-- No listener is missed: one whose path leads to the written place, or goes on from it, is affected.
pub affect_complete :
    (k : Bytes) (wait : LongPollReadControl) (v : VisitorRwaitAndBuffer) (written rest : NodePath)
    → Inv wait
    → lookup k wait ≡ some v
    → (written ≡ v.path ++ rest) ⊎ (v.path ≡ written ++ rest)
    → lookup k (affect (output2string written) wait) ≡ some v
affect_complete k wait v written rest i e related =
    lookup-affect (output2string written) k wait i ∙ rw (e, contains related)
  where
    contains :
        (written ≡ v.path ++ rest) ⊎ (v.path ≡ written ++ rest)
        → whether_contain (output2string written) (output2string v.path) ≡ true
    contains (inl h) = rw h (whether_contain-output2string v.path rest).1
    contains (inr h) = rw h (whether_contain-output2string written rest).0

-- ===== src/Control/Steps.antt =====
-- component/visitorsControl.go: the kernel beside the readers that wait on their buffers, which reach the
-- table of listeners from their own goroutines. A run is a sequence of steps, in any order.
use realtime_data_center.Base.{
  ℕ, ◌≤◌, inl, inr, Bool, true, false, List, [], ◌∷◌, Option, none, some, arith, length, Bytes,
  lookup, insert, All-lookup, Option-cases,
}
use realtime_data_center.Base.Int.{ℤ, pos}
use realtime_data_center.Path.RoundTrip.{input_from_string-IsParsed}
use realtime_data_center.Value.{Value}
use realtime_data_center.Visitor.{
  ReadBufferResult, VisitorRwaitAndBuffer, set_visitor, visitor_string, buffer_capacity,
  take_oldest, read_one,
}
use realtime_data_center.Affect.{LongPollReadControl}
use realtime_data_center.Affect.Registry.{Entry, Inv, apply_for-Inv}
use realtime_data_center.Performance.{add}
use realtime_data_center.Performance.Counts.{add-IsNode}
use realtime_data_center.Control.{VisitorsControl, new_visitors_control}
use realtime_data_center.Control.Serve.{Event, round}
use realtime_data_center.Control.Calls.{start_read}
use realtime_data_center.Control.Listeners.{insert-Inv}
use realtime_data_center.Control.Safety.{
  KernelInv, UnlessEnded, round-KernelInv, new_visitors_control-KernelInv,
}

-- A round of the kernel; a reader that asks for its listener; one that takes from the buffer of the
-- listener under its key, or runs out of time; and one that records the time of its read, in an hour.
pub data Step : Type 0 where
  serve : Event → Step
  ask : Bytes → Bytes → Step
  take : Bool → Bytes → Bytes → Step
  measure : ℤ → ℕ → Step

-- What `readOne` leaves in the table. A listener that has left the table is the reader's own.
unfoldable pub take_result : Bool → Bytes → LongPollReadControl → LongPollReadControl
take_result expired key table = elim (lookup key table) [
  | some v ↦ insert key (read_one expired v).0 table
  | none ↦ table
]

module _ (float_text : ℕ → Bytes) where
  -- One step; `none` once the program has ended by a panic.
  unfoldable pub step : Step → VisitorsControl → Option VisitorsControl
  step (serve e) c = round float_text e c
  step (ask name road) c = some (start_read float_text name road c)
  step (take expired name road) c = some (record c {
    wait_with_timeout =
        take_result expired (visitor_string (set_visitor name road)) c.wait_with_timeout;
  })
  step (measure cost hour) c =
      let p = c.performance in
      some (record c {
        performance = record p {
          long_poll_read_performance = add p.long_poll_read_performance (pos 1) cost hour;
        };
      })

  unfoldable pub steps : List Step → VisitorsControl → Option VisitorsControl
  unfolding step
  steps [] c = some c
  steps (s ∷ ss) c = elim (step s c) [ none ↦ none | some c' ↦ steps ss c' ]

take_oldest-length :
    (expired : Bool) (queue : List ReadBufferResult)
    → length queue ≤ buffer_capacity
    → length (take_oldest expired queue).1 ≤ buffer_capacity
unfolding take_oldest
take_oldest-length true queue h = h
take_oldest-length false [] h = h
take_oldest-length false (a ∷ queue) h = omega arith

read_one-Entry :
    (expired : Bool) (k : Bytes) (v : VisitorRwaitAndBuffer)
    → Entry (k, v)
    → Entry (k, (read_one expired v).0)
unfolding read_one
read_one-Entry expired k v (key, bound, parsed) =
    (key, take_oldest-length expired v.buffer bound, parsed)

take_result-Inv :
    (expired : Bool) (key : Bytes) (table : LongPollReadControl)
    → Inv table
    → Inv (take_result expired key table)
unfolding take_result
take_result-Inv expired key table i = elim (Option-cases (lookup key table)) [
  | inl e ↦ rw (e, take_result) i
  | inr (v, e) ↦
      rw (e, take_result)
        (insert-Inv key _ table
          (read_one-Entry expired key v (All-lookup Entry key table i.entries e)) i)
]

step-KernelInv :
    (float_text : ℕ → Bytes) (s : Step) (c : VisitorsControl)
    → KernelInv c
    → UnlessEnded (step float_text s c)
unfolding step start_read
step-KernelInv float_text (serve e) c i = round-KernelInv float_text e c i
step-KernelInv float_text (ask name road) c i = record {
  listeners =
      apply_for-Inv (set_visitor name road) c.wait_with_timeout (input_from_string-IsParsed road)
        i.listeners;
  writes = i.writes;
  long_polls = i.long_polls;
  updates = i.updates;
  registers = i.registers;
  reads = i.reads;
}
step-KernelInv float_text (take expired name road) c i = record {
  listeners = take_result-Inv expired _ c.wait_with_timeout i.listeners;
  writes = i.writes;
  long_polls = i.long_polls;
  updates = i.updates;
  registers = i.registers;
  reads = i.reads;
}
step-KernelInv float_text (measure cost hour) c i = record {
  listeners = i.listeners;
  writes = i.writes;
  long_polls = add-IsNode _ (pos 1) cost hour i.long_polls;
  updates = i.updates;
  registers = i.registers;
  reads = i.reads;
}

steps_from :
    (float_text : ℕ → Bytes) (ss : List Step) (c : VisitorsControl)
    → KernelInv c
    → UnlessEnded (steps float_text ss c)
unfolding steps
steps_from float_text [] c i = i
steps_from float_text (s ∷ ss) c i =
    go (step float_text s c) (step-KernelInv float_text s c i) (steps_from float_text ss)
  where
    go :
        (next : Option VisitorsControl)
        → UnlessEnded next
        → ((c' : VisitorsControl) → KernelInv c' → UnlessEnded (steps float_text ss c'))
        → UnlessEnded (elim next [ none ↦ none | some c' ↦ steps float_text ss c' ])
    go none h k = tt
    go (some c') h k = k c' h

-- In whatever order the kernel serves requests and readers ask for their listeners, take results and
-- record their times, from the start of the kernel on and as long as the program has not ended by a
-- panic: every listener stands once in the table, under its own text, with a parsed path and no more
-- than the capacity of results in its buffer; and the statistics' rings hold a hundred slots, the next
-- of which is one of them, beside a count for each hour.
pub steps-KernelInv :
    (float_text : ℕ → Bytes) (now : ℤ) (json : Value) (ss : List Step)
    → UnlessEnded (steps float_text ss (new_visitors_control now json))
steps-KernelInv float_text now json ss =
    steps_from float_text ss _ (new_visitors_control-KernelInv now json)

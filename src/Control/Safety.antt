-- ===== src/Control/Safety.antt =====
-- component/visitorsControl.go: the state of the kernel over its rounds.
use realtime_data_center.Base.{
  ℕ, inl, inr, Bool, true, false, [], Option, none, some, if◌then◌else◌, Bytes, bytes_eq,
  Bool-cases, Option-cases,
}
use realtime_data_center.Base.Int.{ℤ, pos, sub64}
use realtime_data_center.Path.{input_from_string, output2string}
use realtime_data_center.Path.RoundTrip.{input_from_string-IsParsed}
use realtime_data_center.Value.{Value, is_nil}
use realtime_data_center.Visitor.{set_visitor}
use realtime_data_center.Json.{Outcome, ok, err, panic, find}
use realtime_data_center.Affect.{apply_for}
use realtime_data_center.Affect.Registry.{Inv, apply_for-Inv}
use realtime_data_center.Performance.{SingleNodePerformance}
use realtime_data_center.Performance.Counts.{
  IsNode, new_single_node_performance-IsNode, add-IsNode, fail-IsNode,
}
use realtime_data_center.Control.{
  VisitorsControl, WriteRequest, ReadRequest, RegisterRequest, new_visitors_control,
}
use realtime_data_center.Control.Serve.{
  Around, unless, account, answer_timeout, after_write, affected_failure, answer_write, serve_write,
  serve_read, try_register, serve_register, Event, write_event, read_event, register_event, idle,
  round,
}
use realtime_data_center.Control.Listeners.{affected_read_return-Inv}

-- The table of listeners is sound, and so are the statistics.
pub record KernelInv (c : VisitorsControl) : Type 0 where
  pub listeners : Inv c.wait_with_timeout
  pub writes : IsNode c.performance.write_performance
  pub long_polls : IsNode c.performance.long_poll_read_performance
  pub updates : IsNode c.performance.write_affected_performance
  pub registers : IsNode c.performance.register_performance
  pub reads : IsNode c.performance.unblock_read_performance

pub new_visitors_control-KernelInv :
    (now : ℤ) (json : Value) → KernelInv (new_visitors_control now json)
unfolding new_visitors_control
new_visitors_control-KernelInv now json = record {
  listeners = record { distinct = tt; entries = tt };
  writes = new_single_node_performance-IsNode;
  long_polls = new_single_node_performance-IsNode;
  updates = new_single_node_performance-IsNode;
  registers = new_single_node_performance-IsNode;
  reads = new_single_node_performance-IsNode;
}

if-IsNode :
    (b : Bool) (m n : SingleNodePerformance) → IsNode m → IsNode n → IsNode (if b then m else n)
if-IsNode true m n i j = i
if-IsNode false m n i j = j

unless-IsNode :
    (b : Bool) (f : SingleNodePerformance → SingleNodePerformance) (n : SingleNodePerformance)
    → IsNode n
    → IsNode (f n)
    → IsNode (unless b f n)
unless-IsNode true f n i j = i
unless-IsNode false f n i j = j

account-IsNode : (env : Around) (n : SingleNodePerformance) → IsNode n → IsNode (account env n)
unfolding account
account-IsNode env n i =
    let added = add-IsNode n (pos 1) (sub64 env.finish env.start) env.hour i in
    if-IsNode _ _ _ (fail-IsNode _ (pos 1) env.summary _ added) added

answer_timeout-IsNode :
    (env : Around) (reason : Bytes) (n : SingleNodePerformance)
    → IsNode n
    → IsNode (answer_timeout env reason n)
unfolding answer_timeout
answer_timeout-IsNode env reason n i =
    unless-IsNode env.taken _ n i (fail-IsNode _ (pos 1) reason n i)

affected_failure-IsNode :
    (env : Around) (errors : Bytes) (k : ℕ) (n : SingleNodePerformance)
    → IsNode n
    → IsNode (affected_failure env errors k n)
unfolding affected_failure
affected_failure-IsNode env errors k n i =
    unless-IsNode (bytes_eq errors []) _ n i (fail-IsNode _ (pos k) _ n i)

module _ (float_text : ℕ → Bytes) where
  after_write-KernelInv :
      (env : Around) (rec : WriteRequest) (json : Value) (c : VisitorsControl)
      → KernelInv c
      → KernelInv (after_write float_text env rec json c)
  unfolding after_write
  after_write-KernelInv env rec json c i = record {
    listeners =
        affected_read_return-Inv float_text env.races json rec.visitor_name env.write_over
          (output2string (input_from_string rec.road)) c.wait_with_timeout i.listeners;
    writes = account-IsNode env _ (answer_timeout-IsNode env _ _ i.writes);
    long_polls = i.long_polls;
    updates =
        add-IsNode _ _ _ env.hour
          (affected_failure-IsNode env _ _ c.performance.write_affected_performance i.updates);
    registers = i.registers;
    reads = i.reads;
  }

  serve_read-KernelInv :
      (env : Around) (rec : ReadRequest) (c : VisitorsControl)
      → KernelInv c
      → KernelInv (serve_read float_text env rec c).0
  unfolding serve_read
  serve_read-KernelInv env rec c i = record {
    listeners = i.listeners;
    writes = i.writes;
    long_polls = i.long_polls;
    updates = i.updates;
    registers = i.registers;
    reads = account-IsNode env _ (answer_timeout-IsNode env _ _ i.reads);
  }

try_register_sound :
    (rec : RegisterRequest) (c : VisitorsControl)
    → KernelInv c
    → Inv (try_register rec c).0 × IsNode (try_register rec c).1
unfolding try_register
try_register_sound rec c i = elim (Bool-cases (is_nil (find c.json (input_from_string rec.road)))) [
  | inl e ↦ rw (e, try_register) (i.listeners, fail-IsNode _ (pos 1) _ _ i.registers)
  | inr e ↦
      elim (Option-cases
        (apply_for (set_visitor rec.visitor_name rec.road) c.wait_with_timeout).1) [
          | inl n ↦ rw (e, n, try_register) (there, fail-IsNode _ (pos 1) _ _ i.registers)
          | inr (v, n) ↦ rw (e, n, try_register) (there, i.registers)
        ]
]
  where
    there : Inv (apply_for (set_visitor rec.visitor_name rec.road) c.wait_with_timeout).0
    there =
        apply_for-Inv (set_visitor rec.visitor_name rec.road) c.wait_with_timeout
          (input_from_string-IsParsed rec.road) i.listeners

serve_register-KernelInv :
    (env : Around) (rec : RegisterRequest) (c : VisitorsControl)
    → KernelInv c
    → KernelInv (serve_register env rec c).0
unfolding serve_register
serve_register-KernelInv env rec c i =
    let (table, node) = try_register_sound rec c i in
    record {
      listeners = table;
      writes = i.writes;
      long_polls = i.long_polls;
      updates = i.updates;
      registers = account-IsNode env _ (answer_timeout-IsNode env _ _ node);
      reads = i.reads;
    }

-- What holds of the state, if there is one.
abbrev pub UnlessEnded : Option VisitorsControl → Type 0
UnlessEnded none = Unit {0}
UnlessEnded (some c) = KernelInv c

answer_write-KernelInv :
    (float_text : ℕ → Bytes) (env : Around) (rec : WriteRequest) (c : VisitorsControl)
    (o : Outcome Value)
    → KernelInv c
    → UnlessEnded
        (elim (answer_write float_text env rec c o) [ none ↦ none | some (c', e) ↦ some c' ])
unfolding answer_write
answer_write-KernelInv float_text env rec c (ok json) i =
    after_write-KernelInv float_text env rec json c i
answer_write-KernelInv float_text env rec c (err e) i =
    after_write-KernelInv float_text env rec c.json c i
answer_write-KernelInv float_text env rec c panic i = tt

pub round-KernelInv :
    (float_text : ℕ → Bytes) (e : Event) (c : VisitorsControl)
    → KernelInv c
    → UnlessEnded (round float_text e c)
unfolding round serve_write
round-KernelInv float_text (write_event env rec) c i =
    answer_write-KernelInv float_text env rec c _ i
round-KernelInv float_text (read_event env rec) c i = serve_read-KernelInv float_text env rec c i
round-KernelInv float_text (register_event env rec) c i = serve_register-KernelInv env rec c i
round-KernelInv float_text idle c i = i

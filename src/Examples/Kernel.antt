-- ===== src/Examples/Kernel.antt =====
-- component/visitorsControl.go: the theorems on the kernel at concrete requests.
use realtime_data_center.Base.{
  ◌≡◌, refl, sym, append-nil, inl, inr, true, false, List, [], ◌∷◌, none, some, if◌then◌else◌,
  Bytes, utf8, bytes_eq, decimal, lookup,
}
use realtime_data_center.Base.Int.{pos}
use realtime_data_center.Path.{input_from_string, output2string}
use realtime_data_center.Path.RoundTrip.{input_from_string-IsParsed}
use realtime_data_center.Value.{float, is_nil}
use realtime_data_center.Visitor.{visitor_string, nil_key, set_result, nil_visitor}
use realtime_data_center.Json.{find, put, read}
use realtime_data_center.Affect.{whether_contain}
use realtime_data_center.Affect.Registry.{registered}
use realtime_data_center.Performance.{get_kernal_performance}
use realtime_data_center.Control.{
  VisitorsControl, WriteRequest, new_visitors_control, get_new_write_request, register_ok,
}
use realtime_data_center.Control.Notify.{affected_read_return}
use realtime_data_center.Control.Delivery.{told, lookup-affected_read_return}
use realtime_data_center.Control.Serve.{Around, after_write, serve_write, write_event, idle}
use realtime_data_center.Control.Calls.{
  start_read, Wait, written, write_quickly, read_quickly, register_notify, finish_read,
}
use realtime_data_center.Control.Safety.{UnlessEnded}
use realtime_data_center.Control.Steps.{Step, serve, ask, take, measure, steps, steps-KernelInv}
use realtime_data_center.Control.Requests.{
  lookup-after_write, serve_write_branches, read_quickly-write_quickly, register_notify_lem,
}
use realtime_data_center.Value.Marshal.{marshal}
use realtime_data_center.Golib.Strings.{split}
use realtime_data_center.Json.{find_step}
use realtime_data_center.Value.{lookup_field}
use realtime_data_center.Path.{iter}
use realtime_data_center.Visitor.{is_nil_result}
use realtime_data_center.Control.Updates.{finish_read-after_write}
use realtime_data_center.Control.Waiting.{found_now, finish_read_lem}
use realtime_data_center.Examples.Trees.{tree, tree', speed_Exists, road_nodes, same_kind}
use realtime_data_center.Examples.Listeners.{hmi, listener, table, table-Inv, there}

abbrev pub env : Around
env = record {
  taken = true;
  start = pos 100;
  write_over = pos 150;
  finish = pos 200;
  hour = 7;
  timing = [];
  summary = [];
  races = λ _. record { taken = 0; late = false };
}

abbrev pub speed : Bytes
speed = utf8 "pump/speed"

abbrev faster : WriteRequest
faster = get_new_write_request (utf8 "plc") speed (float 2)

abbrev pub kernel : VisitorsControl
kernel = record {
  json = tree;
  wait_with_timeout = table;
  performance = get_kernal_performance (pos 0);
}

abbrev pub events : List Step
events =
    ask (utf8 "hmi") speed
    ∷ serve (write_event env faster)
    ∷ take false (utf8 "hmi") speed
    ∷ measure (pos 90) 7
    ∷ serve idle
    ∷ []

steps-KernelInv_example : UnlessEnded (steps decimal events (new_visitors_control (pos 0) tree))
steps-KernelInv_example = steps-KernelInv decimal (pos 0) tree events

lookup-after_write_example :
    lookup (visitor_string hmi) (after_write decimal env faster (float 2) kernel).wait_with_timeout
    ≡ elim (lookup (visitor_string hmi) table) [
      | none ↦ none
      | some v ↦
          if whether_contain (output2string (input_from_string speed)) (output2string v.path)
          then told
              (env.races (visitor_string hmi))
              (read decimal (float 2) v.basic)
              v
              (utf8 "plc")
              (pos 150)
              (some v)
          else some v
    ]
lookup-after_write_example =
    lookup-after_write decimal env faster (float 2) kernel (visitor_string hmi) table-Inv

serve_write_branches_example :
    serve_write decimal env faster kernel
    ≡ some
        (after_write decimal env faster (put (input_from_string speed) (float 2) tree) kernel, none)
serve_write_branches_example =
    (serve_write_branches decimal env faster kernel road_nodes).0 speed_Exists (inr same_kind)

abbrev pub later : VisitorsControl
later = after_write decimal env faster (put (input_from_string speed) (float 2) tree) kernel

pub answered :
    write_quickly decimal true env (utf8 "plc") speed (float 2) kernel ≡ some (later, written)
unfolding write_quickly
answered =
    let served : serve_write decimal env faster kernel ≡ some (later, none) =
      (serve_write_branches decimal env faster kernel road_nodes).0 speed_Exists (inr same_kind) in
    rw served

read_quickly-write_quickly_example :
    (read_quickly decimal true env (utf8 "hmi") speed later).1
    ≡ read decimal (float 2) (record { path = []; name = utf8 "hmi" })
read_quickly-write_quickly_example =
    read_quickly-write_quickly decimal env env (utf8 "plc") (utf8 "hmi") speed speed (float 2)
      kernel later [] refl road_nodes (sym (append-nil (input_from_string speed))) answered

register_notify_lem_example :
    ((register_notify true env (utf8 "hmi") speed (pos 5) kernel).0.json ≡ tree)
    × (is_nil (find tree (input_from_string speed)) ≡ true
        → ((register_notify true env (utf8 "hmi") speed (pos 5) kernel).1 ≡ nil_key)
          × ((register_notify true env (utf8 "hmi") speed (pos 5) kernel).0.wait_with_timeout
              ≡ table))
    × (is_nil (find tree (input_from_string speed)) ≡ false
        → ((register_notify true env (utf8 "hmi") speed (pos 5) kernel).1 ≡ register_ok)
          × (lookup
                (visitor_string hmi)
                (register_notify true env (utf8 "hmi") speed (pos 5) kernel).0.wait_with_timeout
              ≡ (if bytes_eq (visitor_string hmi) (visitor_string hmi)
                  then some (registered hmi (lookup (visitor_string hmi) table))
                  else lookup (visitor_string hmi) table)))
register_notify_lem_example =
    register_notify_lem env (utf8 "hmi") speed (pos 5) kernel (visitor_string hmi) refl

abbrev pub wait : Wait
wait = record {
  expired = true;
  orphan = listener;
  start = pos 100;
  now = pos 300;
  finish = pos 301;
  hour = 7;
  accepted = true;
  around = env;
}

finish_read_lem_example :
    (finish_read decimal wait (utf8 "hmi") speed kernel).1
    ≡ set_result nil_visitor (found_now decimal wait (utf8 "hmi") speed kernel) (pos 300)
finish_read_lem_example =
    ((finish_read_lem decimal wait (utf8 "hmi") speed (visitor_string hmi) kernel listener there).2
      (inl refl)).0

lookup-affected_read_return_test :
    lookup
      (visitor_string hmi)
      (affected_read_return decimal env.races tree (utf8 "plc") (pos 150) table table).0
    ≡ elim (lookup (visitor_string hmi) table) [
      | none ↦ lookup (visitor_string hmi) table
      | some v ↦
          told
            (env.races (visitor_string hmi))
            (read decimal tree v.basic)
            v
            (utf8 "plc")
            (pos 150)
            (lookup (visitor_string hmi) table)
    ]
lookup-affected_read_return_test =
    lookup-affected_read_return decimal env.races tree (utf8 "plc") (pos 150) table table
      (visitor_string hmi) table-Inv.distinct (input_from_string-IsParsed speed, tt)

pub empty_buffer : (registered hmi (lookup (visitor_string hmi) table)).buffer ≡ []
unfolding registered
empty_buffer = rw there

something : is_nil_result (read decimal tree' hmi) ≡ false
unfolding read find find_step iter lookup_field input_from_string split bytes_eq marshal decimal
something = refl

abbrev pub in_time : Wait
in_time = record wait { expired = false }

finish_read-after_write_example :
    (finish_read decimal in_time
      (utf8 "hmi")
      speed
      (after_write decimal env faster tree' (start_read decimal (utf8 "hmi") speed kernel))).1
    ≡ set_result (utf8 "plc") (read decimal tree' hmi) (pos 150)
finish_read-after_write_example =
    finish_read-after_write decimal env in_time faster tree' (utf8 "hmi") speed [] kernel table-Inv
      empty_buffer (inl (sym (append-nil (input_from_string speed)))) refl something refl

-- ===== src/Examples/Connections.antt =====
-- socketApi/socket.go, socketApi/serverHandle.go and clientSimulation/main.go: the theorems on the two ends of a
-- connection, on the shape of the tree, on notifications and on the simulation at concrete ones.
use realtime_data_center.Base.{
  All, ap, length, bytes_eq, ◌+◌, ◌↔◌, ℕ, ◌≡◌, refl, sym, append-nil, inl, true, false, List, [],
  ◌∷◌, ◌++◌, none, some, arith, Bytes, utf8, decimal,
}
use realtime_data_center.Base.Int.{pos}
use realtime_data_center.Base.Words.{le_value, word64, le_bytes}
use realtime_data_center.Path.{last, father, iter, whether_number_string, input_from_string}
use realtime_data_center.Value.{
  set_field, is_nil, text, Fields, lookup_field, Value, float, object, field, end,
}
use realtime_data_center.Json.{
  ok, store_key, place, replace_child, child, put, store, find_step, write, find,
}
use realtime_data_center.Json.Nodes.{iter_all_path}
use realtime_data_center.Golib.Unquote.{valid_fuel}
use realtime_data_center.Golib.Strings.{split}
use realtime_data_center.Socket.{
  read_header, read_fields, read_uint, read_body, encode, header, received, read_frame, cmd_write,
}
use realtime_data_center.Socket.Frames.{Fits}
use realtime_data_center.Socket.Sound.{read_frame_iff}
use realtime_data_center.Link.{
  handle_request, handle_ack, delete_request, store_request, load_request, handle_frame,
  SocketOutput,
}
use realtime_data_center.Link.Duplex.{
  down, Connection, Event, by_client, by_server, ask, accept, look, reply, new_end, up, run,
}
use realtime_data_center.Link.Duplex.Reactions.{Answers}
use realtime_data_center.Link.Duplex.Matches.{AreMatched, run-AreMatched}
use realtime_data_center.Control.{
  get_new_write_request, WriteRequest, VisitorsControl, new_visitors_control,
}
use realtime_data_center.Control.Steps.{steps}
use realtime_data_center.Control.Shape.{KeepsShape, steps-KeepsShape}
use realtime_data_center.Link.{handle_request}
use realtime_data_center.Value.Marshal.{before}
use realtime_data_center.Value.Marshal.Canonical.{IsCanonical}
use realtime_data_center.Json.Listing.{WellKeyed}
use realtime_data_center.Golib.Decimal.{value_from-decimal}
use realtime_data_center.Golib.Reading.{decimal-Reads}
use realtime_data_center.Simulation.{simulate}
use realtime_data_center.Simulation.Notices.{IsNews}
use realtime_data_center.Messages.{ChangeNotify, ChangeNotifyJson, change_notify_string}
use realtime_data_center.Messages.RoundTrip.{unmarshal-change_notify_json}
use realtime_data_center.Value.Marshal.Canonical.{literal, to_value-literal}
use realtime_data_center.Socket.{cmd_notify}
use realtime_data_center.Golib.Scan.{number_literal}
use realtime_data_center.Link.Duplex.Members.{In}
use realtime_data_center.Base.{subst, Bool, inr, if◌then◌else◌}
use realtime_data_center.Simulation.Whole.{IsDone, simulate_lem}
use realtime_data_center.Client.{connected_now}
use realtime_data_center.Simulation.WriteBack.{IsWritable, kernel_request}
use realtime_data_center.Server.{new_handler, Handler, Poll, poll_round}
use realtime_data_center.Server.Notification.{after_serving, visitor_of, poll_round-after_serving}
use realtime_data_center.Api.Kernel.{kernel_api}
use realtime_data_center.Golib.Unmarshal.{unmarshal}
use realtime_data_center.Messages.{set_change_notify_json, change_notify_json}
use realtime_data_center.Examples.Listeners.{table-Inv}
use realtime_data_center.Examples.Messages.{parse_float, two, road-IsPlain, name-IsPlain}
use realtime_data_center.Examples.Services.{call, show, server_error, client_error, number_text}
use realtime_data_center.Examples.Sockets.{small}
use realtime_data_center.Examples.Trees.{tree}
use realtime_data_center.Examples.Kernel.{events, env, kernel, speed, in_time, empty_buffer}

read_frame_iff_example :
    (read_frame (encode small ++ []) ≡ received small [])
    ↔ ((encode small ++ [] ≡ encode small ++ []) × Fits small)
unfolding encode header le_bytes word64
read_frame_iff_example = read_frame_iff (encode small ++ []) [] small (omega arith)

-- A server that counts the requests.
abbrev counting : SocketOutput ℕ
counting cmd payload n = some (n + 1, utf8 "ok")

counting-Answers : Answers (some counting)
counting-Answers cmd payload n = ((n + 1, utf8 "ok"), refl, omega arith)

-- Two requests of the client, which the server reads, answers and sends back in turn.
abbrev exchange : List Event
exchange =
    by_client (ask cmd_write (utf8 "hi"))
    ∷ by_client (ask cmd_write (utf8 "ho"))
    ∷ by_client (accept 0 (pos 5))
    ∷ by_client (accept 0 (pos 6))
    ∷ by_server (look (pos 7) true)
    ∷ by_server (reply (pos 8))
    ∷ by_client (look (pos 9) true)
    ∷ by_server (look (pos 9) true)
    ∷ by_server (reply (pos 9))
    ∷ by_client (look (pos 9) true)
    ∷ []

run-AreMatched_example :
    AreMatched {S = ℕ} {T = ℕ} exchange
      (run none (some counting) exchange (up (new_end (pos 0) 0) (new_end (pos 0) 0)))
run-AreMatched_example =
    run-AreMatched {S = ℕ} {T = ℕ} none (some counting) tt counting-Answers exchange (pos 0) (pos 0)
      0 0 (omega arith) (omega arith) (omega arith)

-- Both requests of the client were answered.
got_all : Connection ℕ ℕ → ℕ
got_all (up c s) = length c.got
got_all (down reason) = 0

exchange_test :
    got_all (run none (some counting) exchange (up (new_end (pos 0) 0) (new_end (pos 0) 0))) ≡ 2
unfolding run read_frame encode header le_bytes word64 got_all handle_frame load_request
    store_request delete_request handle_ack handle_request le_value read_header read_fields
    read_uint read_body
exchange_test = refl

steps-KeepsShape_example :
    KeepsShape tree (steps decimal events (new_visitors_control (pos 0) tree))
steps-KeepsShape_example = steps-KeepsShape decimal (pos 0) tree events

-- A tree in canonical form, with a string that needs escapes.
abbrev plant : Fields
plant =
    field (utf8 "pump") (object (field (utf8 "speed") (float 1) end))
      (field (utf8 "tag") (text (utf8 "a<b\"\n")) end)

one-IsNumber : IsCanonical decimal parse_float (float 1)
unfolding IsCanonical
one-IsNumber = (decimal-Reads 1, ap some (value_from-decimal 1))

plant-IsCanonical : IsCanonical decimal parse_float (object plant)
unfolding IsCanonical valid_fuel before
plant-IsCanonical =
    (refl, (refl, one-IsNumber, tt, tt), (refl, (λ e. cc), tt), (refl, refl, tt, tt))

plant-WellKeyed : WellKeyed (object plant)
unfolding lookup_field bytes_eq whether_number_string
plant-WellKeyed = (
  (((λ e. cc), omega arith), refl),
  refl,
  ((((λ e. cc), omega arith), refl), refl, tt, tt),
  ((((λ e. cc), omega arith), refl), refl, tt, tt),
)

abbrev plant_kernel : VisitorsControl
plant_kernel = record kernel { json = object plant }

abbrev plant_handler : Handler VisitorsControl
plant_handler = new_handler plant_kernel

plant_paths :
    iter_all_path [] (object plant) ≡ [] ∷ utf8 "/pump" ∷ utf8 "/pump/speed" ∷ utf8 "/tag" ∷ []
unfolding iter_all_path
plant_paths = refl

writable : All (IsWritable plant) (iter_all_path [] (object plant))
unfolding iter_all_path input_from_string split find find_step iter lookup_field bytes_eq valid_fuel
writable = (
  ((tt, refl), refl),
  (((omega arith, refl), refl), (((omega arith, refl), refl), (((omega arith, refl), refl), tt))),
)

-- The server tells of each write of the simulation at the speed, and of nothing else.
abbrev speed_notice : ChangeNotify
speed_notice = record {
  base = record { path = utf8 "/pump/speed"; visitor = utf8 "plc" };
  timestamp = pos 150;
  payload = decimal 1;
}

abbrev notices : Bytes → List (ℕ × Bytes)
notices p =
    if bytes_eq p (utf8 "/pump/speed")
    then (cmd_notify, change_notify_string speed_notice) ∷ []
    else []

speed_notice-decoded :
    unmarshal
      (set_change_notify_json parse_float)
      (change_notify_string speed_notice)
      change_notify_json
    ≡ (
      record {
        input = record { base = speed_notice.base; data_input = float 1 };
        timestamp = pos 150;
      },
      false,
    )
unfolding decimal literal valid_fuel bytes_eq
speed_notice-decoded =
    unmarshal-change_notify_json parse_float speed_notice (number_literal (decimal 1)) (float 1)
      (omega arith, refl) name-IsPlain (omega arith) (decimal-Reads 1)
      (to_value-literal decimal parse_float (float 1) one-IsNumber)

notices-IsNews :
    (p : Bytes) → All (IsNews parse_float (iter_all_path [] (object plant))) (notices p)
unfolding iter_all_path
notices-IsNews p = go (bytes_eq p (utf8 "/pump/speed"))
  where
    go :
        (b : Bool)
        → All
            (IsNews parse_float (iter_all_path [] (object plant)))
            (if b then (cmd_notify, change_notify_string speed_notice) ∷ [] else [])
    go true = (
      (
        refl,
        rw speed_notice-decoded refl,
        subst (λ q. In q (iter_all_path [] (object plant)))
            (sym (ap (λ (x : ChangeNotifyJson × Bool). x.0.path) speed_notice-decoded))
            (inr (inr (inl refl))),
      ),
      tt,
    )
    go false = tt

simulate_lem_example : IsDone parse_float notices plant (iter_all_path [] (object plant)) [] (
    simulate decimal parse_float client_error
      (kernel_request decimal parse_float show server_error (λ n. call))
      (λ paths. paths)
      (λ p. [])
      notices
      connected_now
      connected_now
      (0, plant_handler))
simulate_lem_example =
    simulate_lem decimal parse_float show server_error (λ n. call) client_error plant
      (λ paths. paths) notices 0 plant_handler (λ n. (refl, refl)) number_text plant-WellKeyed
      plant-IsCanonical (λ paths. ((λ x m. m), (λ x m. m))) notices-IsNews refl writable

abbrev plc_faster : WriteRequest
plc_faster = get_new_write_request (utf8 "plc") speed (float 2)

abbrev plant' : Value
plant' = object (
    field (utf8 "pump") (object (field (utf8 "speed") (float 2) end))
      (field (utf8 "tag") (text (utf8 "a<b\"\n")) end))

plant_written : write (object plant) (visitor_of plc_faster) ≡ ok plant'
unfolding write find find_step iter store put child replace_child place father last
    input_from_string split lookup_field bytes_eq store_key set_field
plant_written = refl

plant'-IsCanonical : IsCanonical decimal parse_float plant'
unfolding IsCanonical valid_fuel before
plant'-IsCanonical = (refl, (refl, two, tt, tt), (refl, (λ e. cc), tt), (refl, refl, tt, tt))

abbrev hmi_poll : Poll
hmi_poll = record { visitor_name = utf8 "hmi"; road = speed; timeout = pos 10 }

found_there : is_nil (find plant' (input_from_string speed)) ≡ false
unfolding find find_step iter input_from_string split lookup_field bytes_eq
found_there = refl

poll_round-after_serving_example :
    (h' : Handler VisitorsControl) × (message : Bytes) × (poll_round
        (kernel_api decimal show (record (record call { wait = in_time }) {
          meanwhile = after_serving decimal env plc_faster;
        }))
        hmi_poll
        plant_handler
      ≡ some (h', some message))
    × (unmarshal (set_change_notify_json parse_float) message change_notify_json ≡ (
      record {
        input = record {
          base = record { path = speed; visitor = utf8 "plc" };
          data_input = find plant' (input_from_string speed);
        };
        timestamp = pos 150;
      },
      false,
    ))
poll_round-after_serving_example =
    poll_round-after_serving decimal parse_float show (record call { wait = in_time }) env
      plc_faster plant' hmi_poll [] plant_handler table-Inv empty_buffer
      (inl (sym (append-nil (input_from_string speed)))) plant_written refl refl number_text
      found_there plant'-IsCanonical road-IsPlain name-IsPlain (omega arith)

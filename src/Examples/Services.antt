-- ===== src/Examples/Services.antt =====
-- socketApi, restfulApi and resetfulClient: the theorems on servers and clients at concrete ones.
use realtime_data_center.Base.{
  ◌+◌, ◌∙◌, ap, ℕ, ◌≡◌, ◌≢◌, refl, sym, append-nil, true, false, Bool, [], ◌∷◌, none, some, Bytes,
  utf8, bytes_eq, decimal,
}
use realtime_data_center.Base.Int.{pos}
use realtime_data_center.Golib.Decimal.{decimal-ne-nil}
use realtime_data_center.Golib.Scan.{Syntax}
use realtime_data_center.Path.{input_from_string}
use realtime_data_center.Value.{float}
use realtime_data_center.Value.Marshal.{marshal}
use realtime_data_center.Json.{find}
use realtime_data_center.Messages.{
  change_notify_string, visitor_base_string, return_base_string, success,
}
use realtime_data_center.Socket.{cmd_unblock_read, cmd_write}
use realtime_data_center.Control.{VisitorsControl}
use realtime_data_center.Visitor.{set_result}
use realtime_data_center.Messages.{set_payload}
use realtime_data_center.Api.{ControlApi}
use realtime_data_center.Rest.{
  Request, visitor_read, read_now, set_return, return_on_read_buffer_string,
}
use realtime_data_center.Rest
use realtime_data_center.Rest.{body}
use realtime_data_center.Rest.Writing.{ok_return, unblock_read-visitor_write}
use realtime_data_center.Value.Marshal.RoundTrip.{unmarshal_value-marshal}
use realtime_data_center.Rest.Answers.{visitor_read-parse}
use realtime_data_center.Rest.Reading.{http_read-visitor_read}
use realtime_data_center.RestClient.{settings, response, http_read}
use realtime_data_center.Golib.Scan.{parse}
use realtime_data_center.Api.Kernel.{Call, kernel_api, write_outcome}
use realtime_data_center.Server.{
  Handler, Poll, Round, Polled, read_poll, close_notify, socket_output_handle, write_data,
  write_answer,
}
use realtime_data_center.Server.Exchange.{ok_answer, client_reads, write-request}
use realtime_data_center.Server.Readback.{unmarshal-written}
use realtime_data_center.Server.Reading.{unblock_read-write_data}
use realtime_data_center.Server.Polling.{IsLast, read_poll_closed}
use realtime_data_center.Client
use realtime_data_center.Client.{ClientHandle, returned}
use realtime_data_center.Client.Calls.{server_request, write_data-write_quickly}
use realtime_data_center.Examples.Trees.{road_nodes}
use realtime_data_center.Examples.Kernel.{env, wait, kernel, speed, later, answered}
use realtime_data_center.Examples.Messages.{plc, parse_float, road-IsPlain, name-IsPlain, two}

-- The kernel behind the handlers.
abbrev pub call : Call
call = record { accepted = true; around = env; wait = wait; meanwhile = λ c. some (c, true) }

abbrev pub show : VisitorsControl → Bytes
show c = []

abbrev pub server_error : ℕ → Bytes → Bytes
server_error cmd input = []

abbrev pub client_error : Bytes → Bytes
client_error input = []

abbrev handler : Handler VisitorsControl
handler = record { control = kernel; polls = []; quit = false }

abbrev written_handler : Handler VisitorsControl
written_handler = record handler { control = later }

pub number_text : (n : ℕ) → decimal n ≢ []
number_text n = decimal-ne-nil n

write_done :
    (kernel_api decimal show call).write_quickly (utf8 "plc") speed (float 2) kernel
    ≡ some (later, none)
unfolding kernel_api write_outcome
write_done = ap write_outcome answered

write_answered :
    socket_output_handle
      (kernel_api decimal show call)
      parse_float
      server_error
      cmd_write
      (change_notify_string
        (record { base = plc; timestamp = pos 0; payload = marshal decimal (float 2) }))
      handler
    ≡ some (written_handler, return_base_string ok_answer)
unfolding write_data write_answer
write_answered =
    write-request (kernel_api decimal show call) parse_float server_error
      (record { base = plc; timestamp = pos 0; payload = marshal decimal (float 2) }) (float 2)
      handler
      (unmarshal-written decimal parse_float plc (pos 0) (float 2) number_text road-IsPlain
        name-IsPlain two)
    ∙ rw (write_done, write_data) refl

unblock_read-write_data_example :
    client_reads parse_float (
      socket_output_handle
        (kernel_api decimal show call)
        parse_float
        server_error
        cmd_unblock_read
        (visitor_base_string plc)
        written_handler)
    ≡ some (record { base = ok_answer; payload = find (float 2) [] }, false)
unfolding find
unblock_read-write_data_example =
    unblock_read-write_data decimal parse_float server_error show call call plc plc (pos 0)
      (float 2) [] handler written_handler refl refl number_text road-IsPlain name-IsPlain
      road-IsPlain name-IsPlain two refl road_nodes (sym (append-nil (input_from_string speed)))
      write_answered

abbrev pub client : ClientHandle
client = record {
  visitor_name = utf8 "plc";
  auto_reconnect = false;
  quit = false;
  connected = true;
  connection = true;
}

write_data-write_quickly_example :
    Client.write_data parse_float client_error
      (server_request (kernel_api decimal show call) parse_float server_error)
      client
      speed
      (returned (marshal decimal (float 2)))
      handler
    ≡ (written_handler, ok_answer)
write_data-write_quickly_example =
    write_data-write_quickly decimal parse_float server_error client_error
      (kernel_api decimal show call) client speed (float 2) handler later none refl number_text
      road-IsPlain name-IsPlain two tt write_done

-- A kernel that counts its reads and holds 2 at every path.
abbrev counter : ControlApi ℕ
counter = record {
  read_quickly = λ name road n. some (n + 1, utf8 "2");
  read_with_time = λ name road timeout n. some (n + 1, set_result (utf8 "plc") (utf8 "2") (pos 9));
  read_buffer = λ name road timeout n. some (n + 1, set_result (utf8 "plc") (utf8 "2") (pos 9));
  register_notify = λ name road timeout n. some (n, utf8 "2");
  performance_show = λ n. [];
  write_quickly = λ name road payload n. some (n, none);
}

-- A poll of a connection that is closed while it reads.
abbrev poll : Poll
poll = record { visitor_name = utf8 "hmi"; road = speed; timeout = pos 5 }

abbrev closing : Round ℕ
closing = record { api = counter; meanwhile = close_notify }

abbrev message : Bytes
message = change_notify_string (record { base = plc; timestamp = pos 9; payload = utf8 "2" })

abbrev polled : Polled ℕ
polled = record {
  handler = record { control = 1; polls = []; quit = true };
  sent = message ∷ [];
  returned = true;
}

read_poll_closed_example : IsLast polled
unfolding read_poll close_notify set_payload bytes_eq
read_poll_closed_example =
    read_poll_closed (closing ∷ closing ∷ []) poll
      (record { control = 0; polls = []; quit = false }) polled ((λ h. refl), ((λ h. refl), tt))
      refl

-- A read of the counting kernel, without a waiting time.
abbrev look : Request
look = record { sub_path = speed; visitor = utf8 "hmi"; wait = [] }

abbrev page : Bytes
page = return_on_read_buffer_string (record {
  base = record { status = utf8 "ok"; reason = [] };
  writer = [];
  timestamp = pos 0;
  payload = utf8 "2";
})

shown : visitor_read counter client_error look 0 ≡ some (1, page)
unfolding visitor_read read_now set_return bytes_eq
shown = refl

visitor_read-parse_example : parse page ≡ none
visitor_read-parse_example = visitor_read-parse counter client_error look 0 1 page refl shown

abbrev keep : Syntax → Bytes → Bytes × Bool
keep s old = (old, false)

http_read-visitor_read_example :
    success (http_read keep client_error settings speed [] (λ url. response page)).base ≡ false
http_read-visitor_read_example =
    http_read-visitor_read keep client_error client_error settings speed [] (λ url. response page)
      counter look 0 1 page refl shown refl

-- A REST write of 2, and a read of it over a socket.
abbrev post : Request
post = record { sub_path = speed; visitor = utf8 "plc"; wait = [] }

post_answered :
    Rest.visitor_write
      (kernel_api decimal show call)
      parse_float
      client_error
      post
      (body (marshal decimal (float 2)))
      kernel
    ≡ some (later, ok_return)
unfolding Rest.visitor_write set_return bytes_eq
post_answered =
    rw
      (
        unmarshal_value-marshal decimal parse_float (float 2) two,
        Rest.visitor_write,
        write_done,
        Rest.visitor_write,
      )
      refl

unblock_read-visitor_write_example :
    client_reads parse_float (
      socket_output_handle
        (kernel_api decimal show call)
        parse_float
        server_error
        cmd_unblock_read
        (visitor_base_string plc)
        written_handler)
    ≡ some (record { base = ok_answer; payload = find (float 2) [] }, false)
unfolding find
unblock_read-visitor_write_example =
    unblock_read-visitor_write decimal parse_float client_error server_error show call call post plc
      (float 2) [] written_handler kernel refl refl number_text road-IsPlain name-IsPlain two refl
      road_nodes (sym (append-nil (input_from_string speed))) post_answered

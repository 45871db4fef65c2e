-- ===== src/Server.antt =====
-- socketApi/serverHandle.go: the server's end of a connection. It answers the requests of a client by
-- calls of the kernel, and for each registration a poll tells the client of changes.
pub mod Exchange
pub mod Readback
pub mod Polling
pub mod Reading
pub mod Notification
pub mod Found
use realtime_data_center.Base.{
  ℕ, ◌≡◌, refl, Bool, true, false, List, [], ◌∷◌, ◌++◌, Option, none, some, if◌then◌else◌, ◌==◌,
  Bytes, utf8, decimal,
}
use realtime_data_center.Base.Int.{ℤ}
use realtime_data_center.Golib.Unmarshal.{unmarshal}
use realtime_data_center.Visitor.{is_nil_result}
use realtime_data_center.Socket.{cmd_unblock_read, cmd_write, cmd_register_notify}
use realtime_data_center.Messages.{
  VisitorBase, visitor_base, set_visitor_base, VisitorWrite, visitor_write, set_visitor_write,
  VisitorRequestNotify, visitor_request_notify, set_visitor_request_notify, ReturnBase, return_base,
  set_return, return_base_string, ReturnWithPayload, return_with_payload_string, set_payload,
  change_notify_string,
}
use realtime_data_center.Api.{ControlApi}

-- A poll: whose it is, the path and the timeout.
pub record Poll : Type 0 where
  pub visitor_name : Bytes
  pub road : Bytes
  pub timeout : ℤ

-- The handler of a connection: the kernel behind it, the polls that it has started, and whether the
-- connection is closed.
pub record Handler (S : Type 0) : Type 0 where
  pub control : S
  pub polls : List Poll
  pub quit : Bool

-- The handler of a new connection.
abbrev pub new_handler : {S : Type 0} → S → Handler S
new_handler control = record { control = control; polls = []; quit = false }

-- The answers of the handler: failure for a reason, with and without data, and success.
abbrev pub failure : Bytes → Bytes
failure reason = return_base_string (set_return false reason return_base)

abbrev pub failure_with_payload : Bytes → Bytes
failure_with_payload reason =
    return_with_payload_string (record { base = set_return false reason return_base; payload = [] })

abbrev pub success_with_payload : Bytes → Bytes
success_with_payload result =
    return_with_payload_string (record { base = set_return true [] return_base; payload = result })

abbrev pub missing : Bytes → Bytes
missing path = utf8 "未找到该路径" ++ path

-- The answer to a read, by what is read at the path.
unfoldable pub read_answer : Bytes → Bytes → Bytes
unfolding return_with_payload_string set_return
read_answer path result =
    if is_nil_result result
    then failure_with_payload (missing path)
    else success_with_payload result

-- The answer to a write, by the error of the write.
unfoldable pub write_answer : Option Bytes → Bytes
unfolding return_base_string set_return
write_answer none = return_base_string (set_return true [] return_base)
write_answer (some reason) = failure reason

-- The text of the error of Unmarshal, by the command and the payload, is a parameter.
module _ {S : Type 0} (api : ControlApi S) (parse_float : Bytes → Option ℕ)
    (json_error : ℕ → Bytes → Bytes) where
  unfoldable pub unblock_read : VisitorBase → Handler S → Option (Handler S × Bytes)
  unfolding read_answer
  unblock_read request h = elim (api.read_quickly request.visitor request.path h.control) [
    | none ↦ none
    | some (c, result) ↦ some (record h { control = c }, read_answer request.path result)
  ]

  unfoldable pub write_data : VisitorWrite → Handler S → Option (Handler S × Bytes)
  unfolding write_answer
  write_data request h =
      elim (api.write_quickly request.visitor request.path request.data_input h.control) [
        | none ↦ none
        | some (c, problem) ↦ some (record h { control = c }, write_answer problem)
      ]

  -- The registration itself, once its path is found.
  unfoldable pub start_poll : VisitorRequestNotify → Bytes → Handler S → Option (Handler S × Bytes)
  unfolding return_with_payload_string set_return
  start_poll request result h =
      elim (api.register_notify request.visitor request.path request.timeout h.control) [
        | none ↦ none
        | some (c, register_result) ↦
            let poll : Poll = record {
              visitor_name = request.visitor;
              road = request.path;
              timeout = request.timeout;
            } in
            some (
              if is_nil_result register_result
              then (record h { control = c }, failure_with_payload (missing request.path))
              else (record h { control = c; polls = poll ∷ h.polls }, success_with_payload result))
      ]

  unfoldable pub register_poll : VisitorRequestNotify → Handler S → Option (Handler S × Bytes)
  unfolding start_poll return_with_payload_string set_return
  register_poll request h = elim (api.read_quickly request.visitor request.path h.control) [
    | none ↦ none
    | some (c, result) ↦
        if is_nil_result result
        then some (record h { control = c }, failure_with_payload (missing request.path))
        else start_poll request result (record h { control = c })
  ]

  -- `socketOutputHandle`.
  unfoldable pub socket_output_handle : ℕ → Bytes → Handler S → Option (Handler S × Bytes)
  unfolding unblock_read write_data register_poll unmarshal set_visitor_base set_visitor_write
      set_visitor_request_notify return_base_string return_with_payload_string set_return decimal
  socket_output_handle cmd payload h =
      let (base, bad_base) = unmarshal set_visitor_base payload visitor_base in
      let (input, bad_input) = unmarshal (set_visitor_write parse_float) payload visitor_write in
      let (notify, bad_notify) =
        unmarshal set_visitor_request_notify payload visitor_request_notify in
      if cmd == cmd_unblock_read
      then if bad_base
        then some (h, failure_with_payload (json_error cmd payload))
        else unblock_read base h
      else if cmd == cmd_write
      then if bad_input then some (h, failure (json_error cmd payload)) else write_data input h
      else if cmd == cmd_register_notify
      then if bad_notify
        then some (h, failure_with_payload (json_error cmd payload))
        else register_poll notify h
      else some (h, failure (utf8 "请求的指令不存在" ++ decimal cmd))

-- A round of a poll: the notification to send, or nothing.
unfoldable pub poll_round :
    {S : Type 0} → ControlApi S → Poll → Handler S → Option (Handler S × Option Bytes)
unfolding change_notify_string set_payload
poll_round api poll h = elim (api.read_buffer poll.visitor_name poll.road poll.timeout h.control) [
  | none ↦ none
  | some (c, result) ↦ some (
    record h { control = c },
    if is_nil_result result.result
        then none
        else some (change_notify_string (set_payload poll.road result)),
  )
]

unfoldable pub close_notify : {S : Type 0} → Handler S → Handler S
close_notify h = record h { quit = true }

-- What a round of a poll meets: the kernel, and what the rest of the program does to the handler
-- between the read and the end of the round. What the client answers is only logged.
pub record Round (S : Type 0) : Type 0 where
  pub api : ControlApi S
  pub meanwhile : Handler S → Handler S

-- How far a poll has come: the handler, what it has sent, and whether it has returned.
pub record Polled (S : Type 0) : Type 0 where
  pub handler : Handler S
  pub sent : List Bytes
  pub returned : Bool

-- `readPoll` over some rounds. The flag is looked at only in a round that sends.
unfoldable pub read_poll : {S : Type 0} → List (Round S) → Poll → Handler S → Option (Polled S)
unfolding poll_round
read_poll [] poll h = some (record { handler = h; sent = []; returned = false })
read_poll (r ∷ rounds) poll h = elim (poll_round r.api poll h) [
  | none ↦ none
  | some (h', none) ↦ read_poll rounds poll (r.meanwhile h')
  | some (h', some message) ↦
      let after = r.meanwhile h' in
      elim after.quit [
        | true ↦ some (record { handler = after; sent = message ∷ []; returned = true })
        | false ↦ elim (read_poll rounds poll after) [
          | none ↦ none
          | some p ↦ some (record p { sent = message ∷ p.sent })
        ]
      ]
]

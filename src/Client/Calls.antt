-- ===== src/Client/Calls.antt =====
-- socketApi/clientHandle.go and serverHandle.go: a client's write, from the client's call to the kernel
-- and back.
use realtime_data_center.Base.{
  ℕ, ◌≡◌, ◌≢◌, refl, ap, ◌∙◌, inl, inr, true, false, [], Option, none, some, Bytes, utf8,
}
use realtime_data_center.Base.Int.{pos}
use realtime_data_center.Value.{Value}
use realtime_data_center.Value.Marshal.{marshal}
use realtime_data_center.Value.Marshal.Canonical.{IsCanonical}
use realtime_data_center.Golib.Unquote.{valid_fuel}
use realtime_data_center.Golib.Unmarshal.{unmarshal}
use realtime_data_center.Golib.Reading.{IsPlain}
use realtime_data_center.Socket.{cmd_write}
use realtime_data_center.Messages.{
  VisitorBase, ChangeNotify, change_notify_string, ReturnBase, return_base, set_return,
  set_return_base, set_visitor_write, visitor_write,
}
use realtime_data_center.Messages.Answers.{unmarshal-return_base_string}
use realtime_data_center.Api.{ControlApi}
use realtime_data_center.Server.{Handler, write_data, write_answer, socket_output_handle}
use realtime_data_center.Server.Exchange.{ok_answer, write-request}
use realtime_data_center.Server.Readback.{unmarshal-written}
use realtime_data_center.Client
use realtime_data_center.Client.{ClientHandle, Exchange, returned, failed, take_return_base}

-- The socket between them, when nothing is lost: the server's handler answers.
unfoldable pub server_request :
    {S : Type 0}
    → ControlApi S
    → (Bytes → Option ℕ)
    → (ℕ → Bytes → Bytes)
    → ℕ
    → Bytes
    → Handler S
    → Handler S × Exchange
unfolding socket_output_handle
server_request api parse_float server_error cmd payload h =
    elim (socket_output_handle api parse_float server_error cmd payload h) [
      | none ↦ (h, failed [])
      | some (h', answer) ↦ (h', returned answer)
    ]

-- What a write without an error, and one with an error, comes to at the client.
abbrev pub write_result : Option Bytes → ReturnBase
write_result none = ok_answer
write_result (some reason) = record { status = utf8 "fail"; reason = reason }

-- The text of the error needs no escape.
abbrev pub PlainReason : Option Bytes → Type 0
PlainReason none = Unit {0}
PlainReason (some reason) = IsPlain reason

take_return_base_read :
    (parse_float : Bytes → Option ℕ) (json_error : Bytes → Bytes) (answer : Bytes)
    (ret : ReturnBase)
    → unmarshal set_return_base answer return_base ≡ (ret, false)
    → take_return_base parse_float json_error (returned answer) ≡ ret
unfolding take_return_base
take_return_base_read parse_float json_error answer ret e = rw (e, take_return_base) refl

take_return_base-write_answer :
    (parse_float : Bytes → Option ℕ) (json_error : Bytes → Bytes) (problem : Option Bytes)
    → PlainReason problem
    → take_return_base parse_float json_error (returned (write_answer problem))
      ≡ write_result problem
unfolding write_answer set_return valid_fuel
take_return_base-write_answer parse_float json_error none h =
    take_return_base_read parse_float json_error _ ok_answer
      (unmarshal-return_base_string ok_answer (inl refl) (tt, refl))
take_return_base-write_answer parse_float json_error (some reason) h =
    take_return_base_read parse_float json_error _
      (record { status = utf8 "fail"; reason = reason })
      (unmarshal-return_base_string (record { status = utf8 "fail"; reason = reason }) (inr refl) h)

server_request-write :
    {S : Type 0} (api : ControlApi S) (parse_float : Bytes → Option ℕ)
    (server_error : ℕ → Bytes → Bytes) (m : ChangeNotify) (v : Value) (h : Handler S) (c : S)
    (problem : Option Bytes)
    → unmarshal (set_visitor_write parse_float) (change_notify_string m) visitor_write
      ≡ (record { base = m.base; data_input = v }, false)
    → api.write_quickly m.base.visitor m.base.path v h.control ≡ some (c, problem)
    → server_request api parse_float server_error cmd_write (change_notify_string m) h
      ≡ (record h { control = c }, returned (write_answer problem))
unfolding server_request write_data
server_request-write api parse_float server_error m v h c problem read e =
    rw (write-request api parse_float server_error m v h read, server_request, e, write_data) refl

-- A connected client writes a value, with a plain path and name and the value in canonical form, and
-- nothing is lost on the way. Then the kernel is asked once for exactly this write, and the client's
-- call tells how it went: success, or failure with the error of the kernel, if that is plain.
pub write_data-write_quickly :
    {S : Type 0} (float_text : ℕ → Bytes) (parse_float : Bytes → Option ℕ)
    (server_error : ℕ → Bytes → Bytes) (json_error : Bytes → Bytes) (api : ControlApi S)
    (client : ClientHandle) (path : Bytes) (v : Value) (h : Handler S) (c : S)
    (problem : Option Bytes)
    → client.connected ≡ true
    → ((n : ℕ) → float_text n ≢ [])
    → IsPlain path
    → IsPlain client.visitor_name
    → IsCanonical float_text parse_float v
    → PlainReason problem
    → api.write_quickly client.visitor_name path v h.control ≡ some (c, problem)
    → Client.write_data parse_float json_error
        (server_request api parse_float server_error)
        client
        path
        (returned (marshal float_text v))
        h
      ≡ (record h { control = c }, write_result problem)
unfolding Client.write_data
write_data-write_quickly {S} float_text parse_float server_error json_error api client path v h c
      problem on number hp hn cv plain e =
    let base : VisitorBase = record { path = path; visitor = client.visitor_name } in
    let message : ChangeNotify = record {
      base = base;
      timestamp = pos 0;
      payload = marshal float_text v;
    } in
    rw on (
      ap (λ (p : Handler S × Exchange). (p.0, take_return_base parse_float json_error p.1))
        (server_request-write api parse_float server_error message v h c problem
          (unmarshal-written float_text parse_float base (pos 0) v number hp hn cv) e)
      ∙ ap (λ (r : ReturnBase). (record h { control = c }, r))
          (take_return_base-write_answer parse_float json_error problem plain))

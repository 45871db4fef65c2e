-- ===== src/Control/Calls.antt =====
-- component/visitorsControl.go: the calls by which clients reach the kernel. A call that the kernel
-- does not accept in time leaves no trace; an answer that the client does not wait for is lost, but
-- the request is served.
use realtime_data_center.Base.{
  ℕ, Bool, true, false, Option, none, some, if◌then◌else◌, Bytes, lookup, insert,
}
use realtime_data_center.Base.Int.{ℤ, pos, negsuc, sub64, ltb_ℤ}
use realtime_data_center.Path.{input_from_string}
use realtime_data_center.Value.{Value, is_nil}
use realtime_data_center.Visitor.{
  ReadResult, ReadBufferResult, VisitorRwaitAndBuffer, nil_key, nil_visitor, set_visitor,
  set_result, default_read_buffer_result, is_nil_result, visitor_string, read_one,
}
use realtime_data_center.Json.{WriteError, find}
use realtime_data_center.Affect.{LongPollReadControl, apply_for}
use realtime_data_center.Performance.{add}
use realtime_data_center.Control.{
  VisitorsControl, get_new_write_request, new_read_request, new_register_request, default_wait_time,
}
use realtime_data_center.Control.Serve.{Around, serve_write, serve_read, serve_register}

pub data WriteReply : Type 0 where
  written no_answer not_accepted : WriteReply
  refused : WriteError → WriteReply

abbrev pub reply : Bool → Option WriteError → WriteReply
reply false e = no_answer
reply true none = written
reply true (some e) = refused e

-- What a blocking read of a buffer meets: whether its time runs out first, the buffer that it holds a
-- pointer to if the listener has left the table meanwhile, the clock at its start, when its fallback is
-- over and at its end, the hour, and whether and how the kernel serves the fallback.
pub record Wait : Type 0 where
  pub expired : Bool
  pub orphan : VisitorRwaitAndBuffer
  pub start : ℤ
  pub now : ℤ
  pub finish : ℤ
  pub hour : ℕ
  pub accepted : Bool
  pub around : Around

module _ (float_text : ℕ → Bytes) where
  unfoldable pub write_quickly :
      Bool
      → Around
      → Bytes
      → Bytes
      → Value
      → VisitorsControl
      → Option (VisitorsControl × WriteReply)
  unfolding serve_write
  write_quickly accepted env visitor_name road payload control =
      let served =
        serve_write float_text env (get_new_write_request visitor_name road payload) control in
      if accepted
      then elim served [ none ↦ none | some (control', e) ↦ some (control', reply env.taken e) ]
      else some (control, not_accepted)

  unfoldable pub read_quickly :
      Bool → Around → Bytes → Bytes → VisitorsControl → VisitorsControl × ReadResult
  unfolding serve_read
  read_quickly accepted env visitor_name road control =
      let (control', result) =
        serve_read float_text env (new_read_request visitor_name road (negsuc 0)) control in
      if accepted then (control', if env.taken then result else nil_key) else (control, nil_key)

  -- `ReadBuffer`, after its wait: it reads the buffer, and the tree if the buffer gave nothing.
  unfoldable pub after_read :
      Wait → Bytes → Bytes → ReadBufferResult → VisitorsControl → VisitorsControl × ReadBufferResult
  unfolding read_quickly
  after_read env visitor_name road result control =
      let (control', found) = read_quickly env.accepted env.around visitor_name road control in
      if is_nil_result result.result
      then (control', set_result nil_visitor found env.now)
      else (control, result)

  -- The end of `ReadBuffer`, from its wait on, with the listener that it holds a pointer to, if that one
  -- is still in the table.
  unfoldable pub finish_with :
      Wait
      → Bytes
      → Bytes
      → Option VisitorRwaitAndBuffer
      → VisitorsControl
      → VisitorsControl × ReadBufferResult
  finish_with env visitor_name road here control =
      let key = visitor_string (set_visitor visitor_name road) in
      let (visitor, result) = read_one env.expired (elim here [ some v ↦ v | none ↦ env.orphan ]) in
      let table : LongPollReadControl = elim here [
        | some v ↦ insert key visitor control.wait_with_timeout
        | none ↦ control.wait_with_timeout
      ] in
      let (control', returned) =
        after_read env visitor_name road result (record control { wait_with_timeout = table }) in
      let p = control'.performance in
      (
        record control' {
          performance = record p {
            long_poll_read_performance =
                add p.long_poll_read_performance (pos 1) (sub64 env.finish env.start) env.hour;
          };
        },
        returned,
      )

  -- Where a listener that stands under the reader's key is the one that it holds.
  unfoldable pub finish_read :
      Wait → Bytes → Bytes → VisitorsControl → VisitorsControl × ReadBufferResult
  unfolding finish_with
  finish_read env visitor_name road control =
      let key = visitor_string (set_visitor visitor_name road) in
      finish_with env visitor_name road (lookup key control.wait_with_timeout) control

  unfoldable pub start_read : Bytes → Bytes → VisitorsControl → VisitorsControl
  start_read visitor_name road control = record control {
    wait_with_timeout = (apply_for (set_visitor visitor_name road) control.wait_with_timeout).0;
  }

  -- `ReadBuffer`: `meanwhile` is what the other goroutines do to the kernel while it waits, unless they
  -- end the program, and whether a listener that then stands under the reader's key is still the one
  -- that it holds: with `false` that one was removed and another came. It waits as long as it is told, so
  -- a timeout that is not positive runs out at once.
  unfoldable pub read_buffer :
      Wait
      → (VisitorsControl → Option (VisitorsControl × Bool))
      → Bytes
      → Bytes
      → VisitorsControl
      → Option (VisitorsControl × ReadBufferResult)
  unfolding start_read finish_read finish_with
  read_buffer env meanwhile visitor_name road control =
      elim (meanwhile (start_read visitor_name road control)) [
        | none ↦ none
        | some (control', true) ↦ some (finish_read env visitor_name road control')
        | some (control', false) ↦ some (finish_with env visitor_name road none control')
      ]

  -- `ReadWithTime`.
  unfoldable pub read_with_time :
      Wait
      → (VisitorsControl → Option (VisitorsControl × Bool))
      → Bytes
      → Bytes
      → VisitorsControl
      → Option (VisitorsControl × ReadBufferResult)
  unfolding read_buffer
  read_with_time env meanwhile visitor_name road control =
      let found = read_buffer env meanwhile visitor_name road control in
      if is_nil (find control.json (input_from_string road))
      then some (control, default_read_buffer_result)
      else found

-- The timeout that a registration carries.
abbrev pub positive_timeout : ℤ → ℤ
positive_timeout timeout = if ltb_ℤ (pos 0) timeout then timeout else default_wait_time

unfoldable pub register_notify :
    Bool → Around → Bytes → Bytes → ℤ → VisitorsControl → VisitorsControl × ReadResult
unfolding serve_register
register_notify accepted env visitor_name road timeout control =
    let (control', result) =
      serve_register env (new_register_request visitor_name road (positive_timeout timeout))
        control in
    if accepted then (control', if env.taken then result else nil_key) else (control, nil_key)

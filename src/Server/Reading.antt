-- ===== src/Server/Reading.antt =====
-- socketApi/serverHandle.go over component/visitorsControl.go: what clients read from the kernel after a
-- client's write.
use realtime_data_center.Base.{ℕ, ◌≡◌, ◌≢◌, true, false, [], ◌++◌, Option, some, Bytes}
use realtime_data_center.Base.Int.{ℤ}
use realtime_data_center.Path.{NodePath, input_from_string}
use realtime_data_center.Value.{Value, is_nil}
use realtime_data_center.Value.Marshal.{marshal}
use realtime_data_center.Value.Marshal.Canonical.{IsCanonical}
use realtime_data_center.Json.{find}
use realtime_data_center.Golib.Reading.{IsPlain}
use realtime_data_center.Socket.{cmd_unblock_read, cmd_write}
use realtime_data_center.Messages.{
  VisitorBase, visitor_base_string, change_notify_string, return_base_string,
}
use realtime_data_center.Control.{VisitorsControl}
use realtime_data_center.Api.Kernel.{Call, kernel_api, kernel_api-ReadsBack}
use realtime_data_center.Server.{Handler, socket_output_handle}
use realtime_data_center.Server.Exchange.{ok_answer, client_reads}
use realtime_data_center.Server.Readback.{unblock_read-ReadsBack}

-- A client's write of a value to the kernel, at a path that is not empty, with a plain path and name and
-- the value in canonical form, which the server answers by success. Then a request to read the written path, or one below it at which
-- the value holds something, if the kernel accepts it and its answer is taken, is answered by success, and
-- the client gets what the written value holds there.
pub unblock_read-write_data :
    (float_text : ℕ → Bytes) (parse_float : Bytes → Option ℕ) (json_error : ℕ → Bytes → Bytes)
    (show : VisitorsControl → Bytes) (call call' : Call) (base r : VisitorBase) (time : ℤ)
    (v : Value) (q : NodePath) (h h' : Handler VisitorsControl)
    → call'.accepted ≡ true
    → call'.around.taken ≡ true
    → ((n : ℕ) → float_text n ≢ [])
    → IsPlain base.path
    → IsPlain base.visitor
    → IsPlain r.path
    → IsPlain r.visitor
    → IsCanonical float_text parse_float v
    → is_nil (find v q) ≡ false
    → input_from_string base.path ≢ []
    → input_from_string r.path ≡ input_from_string base.path ++ q
    → socket_output_handle
        (kernel_api float_text show call)
        parse_float
        json_error
        cmd_write
        (change_notify_string
          (record { base = base; timestamp = time; payload = marshal float_text v }))
        h
      ≡ some (h', return_base_string ok_answer)
    → client_reads parse_float (
        socket_output_handle
          (kernel_api float_text show call')
          parse_float
          json_error
          cmd_unblock_read
          (visitor_base_string r)
          h')
      ≡ some (record { base = ok_answer; payload = find v q }, false)
unblock_read-write_data float_text parse_float json_error show call call' base r time v q h h'
      accepted taken =
    unblock_read-ReadsBack float_text parse_float json_error (kernel_api float_text show call)
      (kernel_api float_text show call') base r time v q h h'
      (kernel_api-ReadsBack float_text show call call' accepted taken)

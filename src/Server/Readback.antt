-- ===== src/Server/Readback.antt =====
-- socketApi/serverHandle.go: a client's write, and what clients then read.
use realtime_data_center.Base.{
  subst, ℕ, ◌≡◌, ◌≢◌, refl, sym, ap, ◌∙◌, Bool, false, [], ◌++◌, Option, none, some, Bytes,
  bytes_eq_ne,
}
use realtime_data_center.Base.Int.{ℤ}
use realtime_data_center.Path.{NodePath, input_from_string}
use realtime_data_center.Value.{Value, is_nil}
use realtime_data_center.Value.Marshal.{marshal, marshal-ne-nil}
use realtime_data_center.Value.Marshal.Canonical.{IsCanonical, literal, to_value-literal}
use realtime_data_center.Value.Marshal.RoundTrip.{marshal-Reads}
use realtime_data_center.Visitor.{VisitorBasicType}
use realtime_data_center.Json.{find, read}
use realtime_data_center.Json.Canonical.{find-IsCanonical}
use realtime_data_center.Golib.Reading.{IsPlain, Reads}
use realtime_data_center.Golib.Unmarshal.{unmarshal}
use realtime_data_center.Socket.{cmd_unblock_read, cmd_write}
use realtime_data_center.Messages.{
  visitor_write, set_visitor_write, VisitorBase, visitor_base_string, VisitorWrite, ChangeNotify,
  change_notify_string, payload_text, return_base_string,
}
use realtime_data_center.Messages.RoundTrip.{
  unmarshal-visitor_base_string, unmarshal-change_notify_string,
}
use realtime_data_center.Api.{ControlApi, ReadsBack}
use realtime_data_center.Server.{Handler, socket_output_handle}
use realtime_data_center.Server.Exchange.{
  ok_answer, client_reads, write_data-ok, write-request, read-request, unblock_read-client,
}

pub read_there :
    (float_text : ℕ → Bytes) (v : Value) (a : VisitorBasicType)
    → is_nil (find v a.path) ≡ false
    → read float_text v a ≡ marshal float_text (find v a.path)
unfolding read
read_there float_text v a e = rw e refl

-- What the server reads of a client's write of a value.
pub unmarshal-written :
    (float_text : ℕ → Bytes) (parse_float : Bytes → Option ℕ) (base : VisitorBase) (time : ℤ)
    (v : Value)
    → ((n : ℕ) → float_text n ≢ [])
    → IsPlain base.path
    → IsPlain base.visitor
    → IsCanonical float_text parse_float v
    → unmarshal
        (set_visitor_write parse_float)
        (change_notify_string
          (record { base = base; timestamp = time; payload = marshal float_text v }))
        visitor_write
      ≡ (record { base = base; data_input = v }, false)
unmarshal-written float_text parse_float base time v number hp hn cv =
    let text : payload_text (marshal float_text v) ≡ marshal float_text v =
      rw (bytes_eq_ne (marshal float_text v) [] (marshal-ne-nil float_text number v)) refl in
    unmarshal-change_notify_string parse_float
      (record { base = base; timestamp = time; payload = marshal float_text v })
      (literal float_text parse_float v) hp hn
      (subst (λ p. Reads p (literal float_text parse_float v)) (sym text)
        (marshal-Reads float_text parse_float v cv))
    ∙ ap
        (λ (x : Value × Bool).
          let found : VisitorWrite = record { base = base; data_input = x.0 } in (found, x.1))
        (to_value-literal float_text parse_float v cv)

-- A request to read a path, at which the kernel holds what a value in canonical form holds at `q`.
pub client_reads-found :
    {S : Type 0} (float_text : ℕ → Bytes) (parse_float : Bytes → Option ℕ)
    (json_error : ℕ → Bytes → Bytes) (api : ControlApi S) (r : VisitorBase) (v : Value)
    (q : NodePath) (h : Handler S) (c : S)
    → ((n : ℕ) → float_text n ≢ [])
    → IsPlain r.path
    → IsPlain r.visitor
    → IsCanonical float_text parse_float v
    → is_nil (find v q) ≡ false
    → api.read_quickly r.visitor r.path h.control
      ≡ some (c, read float_text v (record { path = q; name = r.visitor }))
    → client_reads parse_float
        (socket_output_handle api parse_float json_error cmd_unblock_read (visitor_base_string r) h)
      ≡ some (record { base = ok_answer; payload = find v q }, false)
client_reads-found float_text parse_float json_error api r v q h c number rp rn cv there found =
    let text = read_there float_text v (record { path = q; name = r.visitor }) there in
    let canonical = find-IsCanonical float_text parse_float q v cv in
    ap (client_reads parse_float)
      (read-request api parse_float json_error r h (unmarshal-visitor_base_string r rp rn))
    ∙ unblock_read-client api parse_float json_error r h c
        (read float_text v (record { path = q; name = r.visitor }))
        (literal float_text parse_float (find v q)) (find v q) found
        (λ e. marshal-ne-nil float_text number (find v q) (sym text ∙ e))
        (subst (λ p. Reads p (literal float_text parse_float (find v q))) (sym text)
          (marshal-Reads float_text parse_float (find v q) canonical))
        (to_value-literal float_text parse_float (find v q) canonical)

-- A client's write of a value, with a plain path and name and the value in canonical form, which the
-- server answers by success. Then a request to read the written path, or one below it at which the value
-- holds something, is answered by success, and the client gets what the written value holds there. The
-- kernel is reached by two calls for which a read after a write gives what was written.
pub unblock_read-ReadsBack :
    {S : Type 0} (float_text : ℕ → Bytes) (parse_float : Bytes → Option ℕ)
    (json_error : ℕ → Bytes → Bytes) (api api' : ControlApi S) (base r : VisitorBase) (time : ℤ)
    (v : Value) (q : NodePath) (h h' : Handler S)
    → ReadsBack float_text api api'
    → ((n : ℕ) → float_text n ≢ [])
    → IsPlain base.path
    → IsPlain base.visitor
    → IsPlain r.path
    → IsPlain r.visitor
    → IsCanonical float_text parse_float v
    → is_nil (find v q) ≡ false
    → input_from_string base.path ≢ []
    → input_from_string r.path ≡ input_from_string base.path ++ q
    → socket_output_handle api parse_float json_error cmd_write
        (change_notify_string
          (record { base = base; timestamp = time; payload = marshal float_text v }))
        h
      ≡ some (h', return_base_string ok_answer)
    → client_reads parse_float (
        socket_output_handle api' parse_float json_error cmd_unblock_read
          (visitor_base_string r)
          h')
      ≡ some (record { base = ok_answer; payload = find v q }, false)
unblock_read-ReadsBack {S} float_text parse_float json_error api api' base r time v q h h' law
      number hp hn rp rn cv there ne below answered =
    let (c, found) =
      law base.visitor r.visitor base.path r.path v h.control h'.control q ne below done in
    client_reads-found float_text parse_float json_error api' r v q h' c number rp rn cv there found
  where
    message : ChangeNotify
    message = record { base = base; timestamp = time; payload = marshal float_text v }

    done : api.write_quickly base.visitor base.path v h.control ≡ some (h'.control, none)
    done =
        write_data-ok api parse_float json_error (record { base = base; data_input = v }) h h'
          (sym (
              write-request api parse_float json_error message v h
                (unmarshal-written float_text parse_float base time v number hp hn cv))
            ∙ answered)

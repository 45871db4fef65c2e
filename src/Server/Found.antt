-- ===== src/Server/Found.antt =====
-- socketApi/serverHandle.go and socketApi/clientHandle.go: the answers to reads and registrations at paths where
-- something is, and what a client makes of them.
use realtime_data_center.Base.{
  ℕ, ◌≡◌, ◌≢◌, refl, ◌∙◌, false, [], ◌∷◌, Option, some, Bytes, bytes_eq_ne,
}
use realtime_data_center.Base.Words.{IsInt64}
use realtime_data_center.Value.{Value}
use realtime_data_center.Value.Marshal.{marshal, marshal-ne-nil}
use realtime_data_center.Value.Marshal.Canonical.{IsCanonical, literal, to_value-literal}
use realtime_data_center.Value.Marshal.RoundTrip.{marshal-Reads}
use realtime_data_center.Visitor.{is_nil_result}
use realtime_data_center.Golib.Reading.{IsPlain}
use realtime_data_center.Socket.{cmd_unblock_read, cmd_register_notify}
use realtime_data_center.Messages.{
  VisitorBase, visitor_base_string, VisitorRequestNotify, visitor_request_notify_string,
}
use realtime_data_center.Messages.RoundTrip.{
  unmarshal-visitor_base_string, unmarshal-visitor_request_notify_string,
}
use realtime_data_center.Api.{ControlApi}
use realtime_data_center.Server.{
  Handler, unblock_read, start_poll, register_poll, socket_output_handle, success_with_payload,
}
use realtime_data_center.Server.Exchange.{
  ok_answer, read-request, read_answer_found, success-client,
}
use realtime_data_center.Client.{take_return_with_payload, returned}

module _ {S : Type 0} (float_text : ℕ → Bytes) (parse_float : Bytes → Option ℕ)
    (json_error : ℕ → Bytes → Bytes) (api : ControlApi S)
    (number : (n : ℕ) → float_text n ≢ []) where
  -- A read that finds a value.
  pub read-found :
      (r : VisitorBase) (v : Value) (h : Handler S) (c : S)
      → IsPlain r.path
      → IsPlain r.visitor
      → api.read_quickly r.visitor r.path h.control ≡ some (c, marshal float_text v)
      → socket_output_handle api parse_float json_error cmd_unblock_read (visitor_base_string r) h
        ≡ some (record h { control = c }, success_with_payload (marshal float_text v))
  unfolding unblock_read
  read-found r v h c rp rn found =
      read-request api parse_float json_error r h (unmarshal-visitor_base_string r rp rn)
      ∙ rw
          (
            found,
            unblock_read,
            read_answer_found api parse_float json_error r.path (marshal float_text v)
                (marshal-ne-nil float_text number v),
          )
          refl

  -- What the server does with the packet of a registration.
  register-request :
      (r : VisitorRequestNotify) (h : Handler S)
      → IsPlain r.path
      → IsPlain r.visitor
      → IsInt64 r.timeout
      → socket_output_handle api parse_float json_error cmd_register_notify
          (visitor_request_notify_string r)
          h
        ≡ register_poll api parse_float json_error r h
  unfolding socket_output_handle
  register-request r h rp rn t =
      rw (unmarshal-visitor_request_notify_string r rp rn t, socket_output_handle) refl

  register_poll-start_poll :
      (r : VisitorRequestNotify) (result : Bytes) (h : Handler S) (c : S)
      → api.read_quickly r.visitor r.path h.control ≡ some (c, result)
      → is_nil_result result ≡ false
      → register_poll api parse_float json_error r h
        ≡ start_poll api parse_float json_error r result (record h { control = c })
  unfolding register_poll
  register_poll-start_poll r result h c found full = rw (found, register_poll, full) refl

  start_poll-registered :
      (r : VisitorRequestNotify) (result : Bytes) (h : Handler S) (c : S) (answer : Bytes)
      → api.register_notify r.visitor r.path r.timeout h.control ≡ some (c, answer)
      → is_nil_result answer ≡ false
      → start_poll api parse_float json_error r result h
        ≡ some (
          record h {
            control = c;
            polls =
                record { visitor_name = r.visitor; road = r.path; timeout = r.timeout } ∷ h.polls;
          },
          success_with_payload result,
        )
  unfolding start_poll
  start_poll-registered r result h c answer registered full = rw (registered, start_poll, full) refl

  -- A registration at a path where a value is, which the kernel accepts: a poll starts, and the answer
  -- has the value.
  pub register-found :
      (r : VisitorRequestNotify) (v : Value) (h : Handler S) (c c' : S) (answer : Bytes)
      → IsPlain r.path
      → IsPlain r.visitor
      → IsInt64 r.timeout
      → api.read_quickly r.visitor r.path h.control ≡ some (c, marshal float_text v)
      → api.register_notify r.visitor r.path r.timeout c ≡ some (c', answer)
      → is_nil_result answer ≡ false
      → socket_output_handle api parse_float json_error cmd_register_notify
          (visitor_request_notify_string r)
          h
        ≡ some (
          record h {
            control = c';
            polls =
                record { visitor_name = r.visitor; road = r.path; timeout = r.timeout } ∷ h.polls;
          },
          success_with_payload (marshal float_text v),
        )
  register-found r v h c c' answer rp rn t found registered full =
      register-request r h rp rn t
      ∙ register_poll-start_poll r (marshal float_text v) h c found
          (bytes_eq_ne (marshal float_text v) [] (marshal-ne-nil float_text number v))
      ∙ start_poll-registered r (marshal float_text v) (record h { control = c }) c' answer
          registered full

  -- What a client makes of such an answer.
  pub take_return-found :
      (client_error : Bytes → Bytes) (v : Value)
      → IsCanonical float_text parse_float v
      → take_return_with_payload parse_float client_error
          (returned (success_with_payload (marshal float_text v)))
        ≡ record { base = ok_answer; payload = v }
  unfolding take_return_with_payload
  take_return-found client_error v canonical =
      rw
        (
          success-client api parse_float json_error (marshal float_text v)
              (literal float_text parse_float v) v (marshal-ne-nil float_text number v)
              (marshal-Reads float_text parse_float v canonical)
              (to_value-literal float_text parse_float v canonical),
          take_return_with_payload,
        )
        refl

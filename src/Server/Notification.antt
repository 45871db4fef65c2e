-- ===== src/Server/Notification.antt =====
-- socketApi/serverHandle.go over component/visitorsControl.go: what a client is told of a write.
use realtime_data_center.Base.{
  true, Bool, subst, ℕ, ◌≡◌, ◌≢◌, refl, sym, ap, ◌∙◌, ◌⊎◌, false, [], ◌++◌, Option, none, some,
  Bytes, bytes_eq, bytes_eq_ne, lookup,
}
use realtime_data_center.Base.Words.{IsInt64}
use realtime_data_center.Path.{NodePath, input_from_string}
use realtime_data_center.Value.{Value, is_nil}
use realtime_data_center.Value.Marshal.{marshal, marshal-ne-nil}
use realtime_data_center.Value.Marshal.Canonical.{IsCanonical, literal, to_value-literal}
use realtime_data_center.Value.Marshal.RoundTrip.{marshal-Reads}
use realtime_data_center.Visitor.{
  VisitorW, ReadBufferResult, set_visitor, visitor_string, is_nil_result, set_result,
}
use realtime_data_center.Json.{ok, find, read, write}
use realtime_data_center.Json.Canonical.{find-IsCanonical}
use realtime_data_center.Golib.Reading.{IsPlain, Reads}
use realtime_data_center.Golib.Unmarshal.{unmarshal}
use realtime_data_center.Affect.Registry.{Inv, registered}
use realtime_data_center.Messages.{
  change_notify_json, set_change_notify_json, change_notify_string, payload_text, set_payload,
}
use realtime_data_center.Messages.RoundTrip.{unmarshal-change_notify_json}
use realtime_data_center.Control.{VisitorsControl, WriteRequest}
use realtime_data_center.Control.Serve.{Around, after_write, serve_write}
use realtime_data_center.Control.Calls.{start_read, finish_read, read_buffer}
use realtime_data_center.Control.Updates.{finish_read-after_write}
use realtime_data_center.Api.{ControlApi}
use realtime_data_center.Api.Kernel.{Call, kernel_api}
use realtime_data_center.Server.{Handler, Poll, poll_round}

-- A write is served, and nothing else happens meanwhile; `none` if it ends the program. No listener comes,
-- so none takes the place of another.
unfoldable pub after_serving :
    (ℕ → Bytes) → Around → WriteRequest → VisitorsControl → Option (VisitorsControl × Bool)
unfolding serve_write
after_serving float_text env rec c = elim (serve_write float_text env rec c) [
  | none ↦ none
  | some (c', problem) ↦ some (c', true)
]

-- What a write request asks of the tree.
abbrev pub visitor_of : WriteRequest → VisitorW
visitor_of rec = record { basic = set_visitor rec.visitor_name rec.road; payload = rec.payload }

after_serving-ok :
    (float_text : ℕ → Bytes) (env : Around) (rec : WriteRequest) (c : VisitorsControl)
    (json : Value)
    → write c.json (visitor_of rec) ≡ ok json
    → after_serving float_text env rec c ≡ some (after_write float_text env rec json c, true)
unfolding after_serving
after_serving-ok float_text env rec c json e = rw (e, after_serving) refl

poll_round-read_buffer :
    {S : Type 0} (api : ControlApi S) (poll : Poll) (h : Handler S) (c : S)
    (result : ReadBufferResult)
    → api.read_buffer poll.visitor_name poll.road poll.timeout h.control ≡ some (c, result)
    → is_nil_result result.result ≡ false
    → poll_round api poll h
      ≡ some (record h { control = c }, some (change_notify_string (set_payload poll.road result)))
unfolding poll_round
poll_round-read_buffer api poll h c result e full = rw (e, poll_round, full) refl

-- What the kernel gives a poll that waits while a write is served which leaves the tree as `json`.
abbrev pub told : (ℕ → Bytes) → Around → WriteRequest → Value → Poll → ReadBufferResult
told float_text env rec json poll =
    set_result rec.visitor_name (read float_text json (set_visitor poll.visitor_name poll.road))
      env.write_over

read_there :
    (float_text : ℕ → Bytes) (json : Value) (name road : Bytes)
    → is_nil (find json (input_from_string road)) ≡ false
    → read float_text json (set_visitor name road)
      ≡ marshal float_text (find json (input_from_string road))
unfolding read
read_there float_text json name road e = rw e refl

kernel_reads :
    (float_text : ℕ → Bytes) (show : VisitorsControl → Bytes) (call : Call) (env : Around)
    (rec : WriteRequest) (json : Value) (poll : Poll) (rest : NodePath)
    (h : Handler VisitorsControl)
    → Inv h.control.wait_with_timeout
    → (registered (set_visitor poll.visitor_name poll.road) (
        lookup
          (visitor_string (set_visitor poll.visitor_name poll.road))
          h.control.wait_with_timeout)).buffer
      ≡ []
    → (input_from_string rec.road ≡ input_from_string poll.road ++ rest)
      ⊎ (input_from_string poll.road ≡ input_from_string rec.road ++ rest)
    → write h.control.json (visitor_of rec) ≡ ok json
    → (env.races (visitor_string (set_visitor poll.visitor_name poll.road))).late ≡ false
    → call.wait.expired ≡ false
    → is_nil_result (read float_text json (set_visitor poll.visitor_name poll.road)) ≡ false
    → (kernel_api float_text show
          (record call { meanwhile = after_serving float_text env rec })).read_buffer
        poll.visitor_name poll.road poll.timeout h.control
      ≡ some (
        (finish_read float_text call.wait poll.visitor_name poll.road (
            after_write float_text env rec json
              (start_read float_text poll.visitor_name poll.road h.control))).0,
        told float_text env rec json poll,
      )
unfolding kernel_api read_buffer start_read
kernel_reads float_text show call env rec json poll rest h i empty near done late expired full =
    let asked = start_read float_text poll.visitor_name poll.road h.control in
    let left = after_write float_text env rec json asked in
    let result = finish_read float_text call.wait poll.visitor_name poll.road left in
    rw (after_serving-ok float_text env rec asked json done, read_buffer)
      (ap (λ r. some (result.0, r))
        (finish_read-after_write float_text env call.wait rec json poll.visitor_name poll.road rest
          h.control i empty near late full expired))

-- A client that decodes the notification.
decoded :
    (float_text : ℕ → Bytes) (parse_float : Bytes → Option ℕ) (env : Around) (rec : WriteRequest)
    (json : Value) (poll : Poll)
    → ((n : ℕ) → float_text n ≢ [])
    → is_nil (find json (input_from_string poll.road)) ≡ false
    → IsCanonical float_text parse_float json
    → IsPlain poll.road
    → IsPlain rec.visitor_name
    → IsInt64 env.write_over
    → unmarshal
        (set_change_notify_json parse_float)
        (change_notify_string (set_payload poll.road (told float_text env rec json poll)))
        change_notify_json
      ≡ (
        record {
          input = record {
            base = record { path = poll.road; visitor = rec.visitor_name };
            data_input = find json (input_from_string poll.road);
          };
          timestamp = env.write_over;
        },
        false,
      )
unfolding set_payload
decoded float_text parse_float env rec json poll number there canonical hp hn ht =
    let found = find json (input_from_string poll.road) in
    let text : payload_text (read float_text json (set_visitor poll.visitor_name poll.road))
        ≡ marshal float_text found =
      rw (read_there float_text json poll.visitor_name poll.road there) (
        rw (bytes_eq_ne (marshal float_text found) [] (marshal-ne-nil float_text number found))
          refl) in
    let canonical' =
      find-IsCanonical float_text parse_float (input_from_string poll.road) json canonical in
    unmarshal-change_notify_json parse_float
      (record {
        base = record { path = poll.road; visitor = rec.visitor_name };
        timestamp = env.write_over;
        payload = read float_text json (set_visitor poll.visitor_name poll.road);
      })
      (literal float_text parse_float found) found hp hn ht
      (subst (λ p. Reads p (literal float_text parse_float found)) (sym text)
        (marshal-Reads float_text parse_float found canonical'))
      (to_value-literal float_text parse_float found canonical')

-- A poll with an empty buffer waits while the kernel serves a write at its path, above or below it, that
-- leaves the tree as `json` and puts its update into the buffer in time. If the tree then holds
-- something at the poll's path, in canonical form, and the texts are plain, the poll sends a
-- notification, and a client that decodes it has the poll's path, the writer's name, the time of the
-- write and what the tree holds at the path.
pub poll_round-after_serving :
    (float_text : ℕ → Bytes) (parse_float : Bytes → Option ℕ) (show : VisitorsControl → Bytes)
    (call : Call) (env : Around) (rec : WriteRequest) (json : Value) (poll : Poll) (rest : NodePath)
    (h : Handler VisitorsControl)
    → Inv h.control.wait_with_timeout
    → (registered (set_visitor poll.visitor_name poll.road) (
        lookup
          (visitor_string (set_visitor poll.visitor_name poll.road))
          h.control.wait_with_timeout)).buffer
      ≡ []
    → (input_from_string rec.road ≡ input_from_string poll.road ++ rest)
      ⊎ (input_from_string poll.road ≡ input_from_string rec.road ++ rest)
    → write h.control.json (visitor_of rec) ≡ ok json
    → (env.races (visitor_string (set_visitor poll.visitor_name poll.road))).late ≡ false
    → call.wait.expired ≡ false
    → ((n : ℕ) → float_text n ≢ [])
    → is_nil (find json (input_from_string poll.road)) ≡ false
    → IsCanonical float_text parse_float json
    → IsPlain poll.road
    → IsPlain rec.visitor_name
    → IsInt64 env.write_over
    → (h' : Handler VisitorsControl) × (message : Bytes) × (poll_round
          (kernel_api float_text show
            (record call { meanwhile = after_serving float_text env rec }))
          poll
          h
        ≡ some (h', some message))
      × (unmarshal (set_change_notify_json parse_float) message change_notify_json ≡ (
        record {
          input = record {
            base = record { path = poll.road; visitor = rec.visitor_name };
            data_input = find json (input_from_string poll.road);
          };
          timestamp = env.write_over;
        },
        false,
      ))
poll_round-after_serving float_text parse_float show call env rec json poll rest h i empty near done
      late expired number there canonical hp hn ht =
    (
      _,
      _,
      poll_round-read_buffer
          (kernel_api float_text show
            (record call { meanwhile = after_serving float_text env rec }))
          poll h _ (told float_text env rec json poll)
          (kernel_reads float_text show call env rec json poll rest h i empty near done late expired
            full)
          full,
      decoded float_text parse_float env rec json poll number there canonical hp hn ht,
    )
  where
    full : bytes_eq (read float_text json (set_visitor poll.visitor_name poll.road)) [] ≡ false
    full = bytes_eq_ne _ [] (λ e.
        marshal-ne-nil float_text number (find json (input_from_string poll.road))
          (sym (read_there float_text json poll.visitor_name poll.road there) ∙ e))

-- ===== src/Simulation/Requests.antt =====
-- clientSimulation/main.go over the kernel: a read and a registration by the simulation's sockets.
use realtime_data_center.Base.{
  ℕ, ◌+◌, ◌≡◌, ◌≢◌, refl, ap, ◌∙◌, true, false, [], ◌∷◌, Option, some, Bytes, bytes_eq,
}
use realtime_data_center.Base.Int.{ℤ}
use realtime_data_center.Base.Words.{IsInt64}
use realtime_data_center.Path.{input_from_string}
use realtime_data_center.Value.{Value, is_nil}
use realtime_data_center.Value.Marshal.{marshal}
use realtime_data_center.Value.Marshal.Canonical.{IsCanonical}
use realtime_data_center.Json.{find, read}
use realtime_data_center.Json.Canonical.{find-IsCanonical}
use realtime_data_center.Golib.Reading.{IsPlain}
use realtime_data_center.Visitor.{set_visitor}
use realtime_data_center.Socket.{cmd_unblock_read, cmd_register_notify}
use realtime_data_center.Messages.{
  VisitorBase, visitor_base_string, VisitorRequestNotify, visitor_request_notify_string,
}
use realtime_data_center.Control.{VisitorsControl, register_ok}
use realtime_data_center.Control.Serve.{Around, serve_read}
use realtime_data_center.Control.Calls.{read_quickly, register_notify}
use realtime_data_center.Control.Requests.{register_notify_lem}
use realtime_data_center.Api.Kernel.{Call, kernel_api}
use realtime_data_center.Server.{Handler, Poll, socket_output_handle, success_with_payload}
use realtime_data_center.Server.Exchange.{ok_answer}
use realtime_data_center.Server.Readback.{read_there}
use realtime_data_center.Server.Found.{read-found, register-found, take_return-found}
use realtime_data_center.Client
use realtime_data_center.Client.{ClientHandle, Exchange, returned, failed}
use realtime_data_center.Client.Calls.{server_request}
use realtime_data_center.Simulation.WriteBack.{kernel_request, AllServed}

-- A read that the kernel accepts and whose answer is taken.
read_quickly_lem :
    (float_text : ℕ → Bytes) (env : Around) (name road : Bytes) (c : VisitorsControl)
    → env.taken ≡ true
    → ((read_quickly float_text true env name road c).1
        ≡ read float_text c.json (set_visitor name road))
      × ((read_quickly float_text true env name road c).0.json ≡ c.json)
unfolding read_quickly serve_read
read_quickly_lem float_text env name road c t = (rw t refl, refl)

module _ (float_text : ℕ → Bytes) (parse_float : Bytes → Option ℕ) (show : VisitorsControl → Bytes)
    (server_error : ℕ → Bytes → Bytes) (calls : ℕ → Call)
    (all : AllServed float_text parse_float show server_error calls) where
  -- A read changes the statistics only.
  kernel-read_quickly :
      (n : ℕ) (name road : Bytes) (c : VisitorsControl)
      → is_nil (find c.json (input_from_string road)) ≡ false
      → (c' : VisitorsControl) × ((kernel_api float_text show (calls n)).read_quickly name road c
          ≡ some (c', marshal float_text (find c.json (input_from_string road))))
        × (c'.json ≡ c.json)
  unfolding kernel_api
  kernel-read_quickly n name road c there =
      let c' = (read_quickly float_text true (calls n).around name road c).0 in
      let (found, same) = read_quickly_lem float_text (calls n).around name road c (all n).1 in
      (
        c',
        rw ((all n).0) (
            ap (λ x. some (c', x))
              (found ∙ read_there float_text c.json (set_visitor name road) there)),
        same,
      )

  kernel-register_notify :
      (n : ℕ) (name road : Bytes) (timeout : ℤ) (c : VisitorsControl)
      → is_nil (find c.json (input_from_string road)) ≡ false
      → (c' : VisitorsControl) × ((kernel_api float_text show (calls n)).register_notify name road
            timeout c
          ≡ some (c', register_ok))
        × (c'.json ≡ c.json)
  unfolding kernel_api
  kernel-register_notify n name road timeout c there =
      let c' = (register_notify true (calls n).around name road timeout c).0 in
      let (same, _, found) =
        register_notify_lem (calls n).around name road timeout c [] (all n).1 in
      (c', rw ((all n).0) (ap (λ x. some (c', x)) ((found there).0)), same)

  kernel_request-answered :
      (cmd n : ℕ) (payload answer : Bytes) (h h' : Handler VisitorsControl)
      → socket_output_handle
          (kernel_api float_text show (calls n))
          parse_float
          server_error
          cmd
          payload
          h
        ≡ some (h', answer)
      → kernel_request float_text parse_float show server_error calls cmd payload (n, h)
        ≡ ((n + 1, h'), returned answer)
  unfolding kernel_request server_request
  kernel_request-answered cmd n payload answer h h' e = rw (e, server_request) refl

  module _ (json_error : Bytes → Bytes) (client : ClientHandle) (on : client.connected ≡ true)
      (number : (n : ℕ) → float_text n ≢ []) (plain : IsPlain client.visitor_name) (v : Value)
      (canonical : IsCanonical float_text parse_float v) where
    -- A read, and a registration, at a path at which the tree holds something: the answer of success has
    -- it, and the tree stays.
    pub unblock_read-kernel_request :
        (path : Bytes) (n : ℕ) (h : Handler VisitorsControl)
        → h.control.json ≡ v
        → IsPlain path
        → is_nil (find v (input_from_string path)) ≡ false
        → (h' : Handler VisitorsControl) × (Client.unblock_read parse_float json_error
              (kernel_request float_text parse_float show server_error calls)
              client
              path
              (n, h)
            ≡ ((n + 1, h'), record { base = ok_answer; payload = find v (input_from_string path) }))
          × (h'.control.json ≡ v)
          × (h'.polls ≡ h.polls)
    unfolding Client.unblock_read
    unblock_read-kernel_request path n h same hp there =
        let found = find v (input_from_string path) in
        let message : VisitorBase = record { path = path; visitor = client.visitor_name } in
        let (c, e, kept) =
          kernel-read_quickly n client.visitor_name path h.control (rw same there) in
        let answered =
          kernel_request-answered cmd_unblock_read n (visitor_base_string message)
            (success_with_payload (marshal float_text found)) h (record h { control = c })
            (read-found float_text parse_float server_error (kernel_api float_text show (calls n))
              number message found h c hp plain
              (e
                ∙ ap (λ t. some (c, marshal float_text (find t (input_from_string path)))) same)) in
        (
          record h { control = c },
          rw
              (
                on,
                answered,
                take_return-found float_text parse_float server_error
                    (kernel_api float_text show (calls n)) number json_error found
                    (find-IsCanonical float_text parse_float (input_from_string path) v canonical),
              )
              refl,
          kept ∙ same,
          refl,
        )

    pub register_notify-kernel_request :
        (path : Bytes) (timeout : ℤ) (n : ℕ) (h : Handler VisitorsControl)
        → h.control.json ≡ v
        → IsPlain path
        → IsInt64 timeout
        → is_nil (find v (input_from_string path)) ≡ false
        → (h' : Handler VisitorsControl) × (Client.register_notify parse_float json_error
              (kernel_request float_text parse_float show server_error calls)
              client
              path
              timeout
              (n, h)
            ≡ ((n + 1, h'), record { base = ok_answer; payload = find v (input_from_string path) }))
          × (h'.control.json ≡ v)
          × (h'.polls
              ≡ record { visitor_name = client.visitor_name; road = path; timeout = timeout }
                ∷ h.polls)
    unfolding Client.register_notify bytes_eq
    register_notify-kernel_request path timeout n h same hp ht there =
        let found = find v (input_from_string path) in
        let message : VisitorRequestNotify = record {
          base = record { path = path; visitor = client.visitor_name };
          timeout = timeout;
        } in
        let (c, e, kept) =
          kernel-read_quickly n client.visitor_name path h.control (rw same there) in
        let (c', e', kept') =
          kernel-register_notify n client.visitor_name path timeout c (rw (kept, same) there) in
        let poll : Poll = record {
          visitor_name = client.visitor_name;
          road = path;
          timeout = timeout;
        } in
        let h' : Handler VisitorsControl = record h { control = c'; polls = poll ∷ h.polls } in
        let answered =
          kernel_request-answered cmd_register_notify n (visitor_request_notify_string message)
            (success_with_payload (marshal float_text found)) h h'
            (register-found float_text parse_float server_error
              (kernel_api float_text show (calls n)) number message found h c c' register_ok hp
              plain ht
              (e ∙ ap (λ t. some (c, marshal float_text (find t (input_from_string path)))) same) e'
              refl) in
        (
          h',
          rw
              (
                on,
                answered,
                take_return-found float_text parse_float server_error
                    (kernel_api float_text show (calls n)) number json_error found
                    (find-IsCanonical float_text parse_float (input_from_string path) v canonical),
              )
              refl,
          kept' ∙ kept ∙ same,
          refl,
        )

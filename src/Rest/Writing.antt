-- ===== src/Rest/Writing.antt =====
-- restfulApi/restfulApi.go and socketApi/serverHandle.go: a write by the REST interface, and what a
-- client of the socket then reads.
use realtime_data_center.Base.{
  ℕ, ◌≡◌, ◌≢◌, ap, ◌∙◌, inl, inr, true, false, [], ◌++◌, Option, none, some, Bytes, utf8, arith,
  length, Option-cases,
}
use realtime_data_center.Path.{NodePath, input_from_string}
use realtime_data_center.Value.{Value, is_nil}
use realtime_data_center.Value.Marshal.{marshal}
use realtime_data_center.Value.Marshal.Canonical.{IsCanonical}
use realtime_data_center.Value.Marshal.RoundTrip.{unmarshal_value-marshal}
use realtime_data_center.Json.{find}
use realtime_data_center.Golib.Reading.{IsPlain}
use realtime_data_center.Socket.{cmd_unblock_read}
use realtime_data_center.Messages.{VisitorBase, visitor_base_string}
use realtime_data_center.Control.{VisitorsControl}
use realtime_data_center.Api.{ControlApi}
use realtime_data_center.Api.Kernel.{Call, kernel_api, kernel_api-ReadsBack}
use realtime_data_center.Server.{Handler, socket_output_handle}
use realtime_data_center.Server.Exchange.{ok_answer, client_reads}
use realtime_data_center.Server.Readback.{client_reads-found}
use realtime_data_center.Rest.{
  Request, ReturnBase, set_return, return_base, body, visitor_name, visitor_write,
}

-- The answer of success.
abbrev pub ok_return : ReturnBase
ok_return = record { status = utf8 "ok"; reason = [] }

-- A write whose answer has the status of success was done without an error.
visitor_write-ok :
    {S : Type 0} (float_text : ℕ → Bytes) (parse_float : Bytes → Option ℕ)
    (json_error : Bytes → Bytes) (api : ControlApi S) (request : Request) (v : Value) (c c' : S)
    → IsCanonical float_text parse_float v
    → visitor_write api parse_float json_error request (body (marshal float_text v)) c
      ≡ some (c', ok_return)
    → api.write_quickly (visitor_name request) request.sub_path v c ≡ some (c', none)
unfolding visitor_write set_return
visitor_write-ok {S} float_text parse_float json_error api request v c c' cv e =
    elim (Option-cases (api.write_quickly (visitor_name request) request.sub_path v c)) [
      | inl o ↦ cc (
          rw (unmarshal_value-marshal float_text parse_float v cv, visitor_write, o, visitor_write)
            at e)
      | inr ((d, problem), o) ↦
          o
          ∙ done d problem (
              rw
                (
                  unmarshal_value-marshal float_text parse_float v cv,
                  visitor_write,
                  o,
                  visitor_write,
                )
                at e)
    ]
  where
    done :
        (d : S) (problem : Option Bytes)
        → Path
            (Option (S × ReturnBase))
            (some (
              d,
              elim problem as (λ _. ReturnBase) [
                | none ↦ set_return true [] (set_return true [] return_base)
                | some reason ↦ set_return false reason (set_return true [] return_base)
              ],
            ))
            (some (c', ok_return))
        → Path (Option (S × Option Bytes)) (some (d, problem)) (some (c', none))
    done d none e =
        ap
          (λ (o : Option (S × ReturnBase)). elim o as (λ _. Option (S × Option Bytes)) [
            | none ↦ none
            | some (x, _) ↦ some (x, none)
          ])
          e
    done d (some reason) e =
        let same : length (utf8 "fail") ≡ length (utf8 "ok") =
          ap
            (λ (o : Option (S × ReturnBase)). elim o as (λ _. ℕ) [
              | none ↦ 0
              | some (_, ret) ↦ length ret.status
            ])
            e in
        let no_way : ⊥ = omega (arith, same) in elim no_way [ ]

-- A write to the kernel by the REST interface, at a path that is not empty, whose body is the text of a
-- value in canonical form, that is answered by success. Then a request over a socket to read the written path, or one below it at which
-- the value holds something, with plain texts, if the kernel accepts it and its answer is taken, is
-- answered by success, and the client gets what the written value holds there.
pub unblock_read-visitor_write :
    (float_text : ℕ → Bytes) (parse_float : Bytes → Option ℕ) (rest_error : Bytes → Bytes)
    (json_error : ℕ → Bytes → Bytes) (show : VisitorsControl → Bytes) (call call' : Call)
    (request : Request) (r : VisitorBase) (v : Value) (q : NodePath) (h : Handler VisitorsControl)
    (c : VisitorsControl)
    → call'.accepted ≡ true
    → call'.around.taken ≡ true
    → ((n : ℕ) → float_text n ≢ [])
    → IsPlain r.path
    → IsPlain r.visitor
    → IsCanonical float_text parse_float v
    → is_nil (find v q) ≡ false
    → input_from_string request.sub_path ≢ []
    → input_from_string r.path ≡ input_from_string request.sub_path ++ q
    → visitor_write
        (kernel_api float_text show call)
        parse_float
        rest_error
        request
        (body (marshal float_text v))
        c
      ≡ some (h.control, ok_return)
    → client_reads parse_float (
        socket_output_handle
          (kernel_api float_text show call')
          parse_float
          json_error
          cmd_unblock_read
          (visitor_base_string r)
          h)
      ≡ some (record { base = ok_answer; payload = find v q }, false)
unblock_read-visitor_write float_text parse_float rest_error json_error show call call' request r v
      q h c accepted taken number rp rn cv there ne below answered =
    let done =
      visitor_write-ok float_text parse_float rest_error (kernel_api float_text show call) request v
        c h.control cv answered in
    let (c', found) =
      kernel_api-ReadsBack float_text show call call' accepted taken (visitor_name request)
        r.visitor request.sub_path r.path v c h.control q ne below done in
    client_reads-found float_text parse_float json_error (kernel_api float_text show call') r v q h
      c' number rp rn cv there found

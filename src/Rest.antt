-- ===== src/Rest.antt =====
-- restfulApi/restfulApi.go: the handlers of the REST interface. What go-restful finds in a request, the
-- parameters in the path and behind it, is an argument; a handler gives what it writes.
pub mod Answers
pub mod Reading
pub mod Writing
use realtime_data_center.Base.{
  not, ℕ, ◌≡◌, refl, Bool, true, false, ◌&&◌, List, [], ◌∷◌, ◌++◌, Option, none, some,
  if◌then◌else◌, Bytes, utf8, bytes_eq,
}
use realtime_data_center.Base.Int.{ℤ, pos}
use realtime_data_center.Golib.Strconv.{atoi}
use realtime_data_center.Golib.Unmarshal.{unmarshal_value}
use realtime_data_center.Visitor.{
  ReadResult, ReadBufferResult, is_nil_result, get_result, nil_key, nil_visitor,
}
use realtime_data_center.Api.{ControlApi}

abbrev pub default_visitor_name : Bytes
default_visitor_name = utf8 "默认访问者"

-- `visitor` and `wait` are empty if the request has no such parameter.
pub record Request : Type 0 where
  pub sub_path : Bytes
  pub visitor : Bytes
  pub wait : Bytes

abbrev pub visitor_name : Request → Bytes
visitor_name request = if bytes_eq request.visitor [] then default_visitor_name else request.visitor

-- What reading the body gives: its bytes, or the text of an error.
pub data Body : Type 0 where
  body : Bytes → Body
  unreadable : Bytes → Body

pub record ReturnBase : Type 0 where
  pub status : Bytes
  pub reason : Bytes

abbrev pub return_base : ReturnBase
return_base = record { status = []; reason = [] }

-- `Set`. Success keeps the reason that is there.
unfoldable pub set_return : Bool → Bytes → ReturnBase → ReturnBase
set_return true fail_reason ret = record ret { status = utf8 "ok" }
set_return false fail_reason ret = record { status = utf8 "fail"; reason = fail_reason }

pub record ReturnWithPayload : Type 0 where
  pub base : ReturnBase
  pub open base use *
  pub payload : ReadResult

-- What both methods `String` do before they print: no data is a failure if the reason is "ok".
abbrev pub without_data : ReadResult → ReturnBase → ReturnBase
without_data payload base =
    if is_nil_result payload && bytes_eq base.reason (utf8 "ok")
    then set_return false (utf8 "数据为空") base
    else base

abbrev pub data_text : ReadResult → Bytes
data_text payload = if is_nil_result payload then utf8 "null" else payload

unfoldable pub return_with_payload_string : ReturnWithPayload → Bytes
unfolding set_return
return_with_payload_string ret =
    let base = without_data ret.payload ret.base in
    utf8 "{\"status\":\""
    ++ (base.status
        ++ (utf8 "\",\"reason\":\""
            ++ (base.reason ++ (utf8 "\",\"data\":" ++ (data_text ret.payload ++ utf8 "}")))))

pub record ReturnWithPayloadOnReadBuffer : Type 0 where
  pub base : ReturnBase
  pub open base use *
  pub writer : Bytes
  pub timestamp : ℤ
  pub payload : ReadResult

abbrev pub return_on_read_buffer : ReturnWithPayloadOnReadBuffer
return_on_read_buffer = record {
  base = return_base;
  writer = nil_visitor;
  timestamp = pos 0;
  payload = nil_key;
}

-- The writer stands there without quotes, and the time does not stand there.
unfoldable pub return_on_read_buffer_string : ReturnWithPayloadOnReadBuffer → Bytes
unfolding set_return
return_on_read_buffer_string ret =
    let base = without_data ret.payload ret.base in
    utf8 "{\"status\":\""
    ++ (base.status
        ++ (utf8 "\",\"reason\":\""
            ++ (base.reason
                ++ (utf8 "\",\"visitor\":"
                    ++ (ret.writer
                        ++ (utf8 ",\"data\":" ++ (data_text ret.payload ++ utf8 "}")))))))

-- `SetPayload`
unfoldable pub set_payload :
    ReadBufferResult → ReturnWithPayloadOnReadBuffer → ReturnWithPayloadOnReadBuffer
unfolding set_return
set_payload result ret =
    let (writer, payload, timestamp) = get_result result in
    if is_nil_result result.result
    then record ret { base = set_return false (utf8 "无效操作") ret.base }
    else record {
      base = set_return true [] ret.base;
      writer = writer;
      timestamp = timestamp;
      payload = payload;
    }

-- The end of both kinds of read: no data is a failure.
abbrev pub judge : ReturnWithPayloadOnReadBuffer → ReturnWithPayloadOnReadBuffer
judge ret = record ret {
  base = set_return (not (is_nil_result ret.payload)) (utf8 "读返回nil") ret.base;
}

-- The texts of the errors of Atoi and Unmarshal are parameters.
module _ {S : Type 0} (api : ControlApi S) where
  -- `registered` says whether `Register` has set the interface.
  unfoldable pub performance : Bool → S → Bytes
  performance registered c = if registered then api.performance_show c else utf8 "核心未注册performance"

  unfoldable pub read_now : Request → S → Option (S × ReturnWithPayloadOnReadBuffer)
  unfolding set_return
  read_now request c = elim (api.read_quickly (visitor_name request) request.sub_path c) [
    | none ↦ none
    | some (c', result) ↦ some (c', judge (record return_on_read_buffer { payload = result }))
  ]

  -- A `wait` that is no number is reported, and then used with the value that Atoi gives.
  unfoldable pub read_waiting :
      (Bytes → Bytes) → Request → S → Option (S × ReturnWithPayloadOnReadBuffer)
  unfolding set_return set_payload atoi
  read_waiting atoi_error request c =
      let (wait_time, problem) = atoi request.wait in
      let base : ReturnBase = elim problem [
        | none ↦ set_return true [] return_base
        | some _ ↦ set_return false (atoi_error request.wait) return_base
      ] in
      elim (api.read_with_time (visitor_name request) request.sub_path wait_time c) [
        | none ↦ none
        | some (c', result) ↦
            some (c', judge (set_payload result (record return_on_read_buffer { base = base })))
      ]

  unfoldable pub visitor_read : (Bytes → Bytes) → Request → S → Option (S × Bytes)
  unfolding read_now read_waiting return_on_read_buffer_string
  visitor_read atoi_error request c =
      let found : Option (S × ReturnWithPayloadOnReadBuffer) = elim (bytes_eq request.wait []) [
        | true ↦ read_now request c
        | false ↦ read_waiting atoi_error request c
      ] in
      elim found [ none ↦ none | some (c', ret) ↦ some (c', return_on_read_buffer_string ret) ]

  -- `visitorWrite`; the answer is written as JSON by go-restful.
  unfoldable pub visitor_write :
      (Bytes → Option ℕ) → (Bytes → Bytes) → Request → Body → S → Option (S × ReturnBase)
  unfolding unmarshal_value set_return
  visitor_write parse_float json_error request (unreadable reason) c =
      some (c, set_return false reason return_base)
  visitor_write parse_float json_error request (body datas) c =
      let (data_input, wrong) = unmarshal_value parse_float datas in
      if wrong
      then some (c, set_return false (json_error datas) return_base)
      else elim (api.write_quickly (visitor_name request) request.sub_path data_input c) [
        | none ↦ none
        | some (c', problem) ↦ some (
          c',
          elim problem [
            | none ↦ set_return true [] (set_return true [] return_base)
            | some reason ↦ set_return false reason (set_return true [] return_base)
          ],
        )
      ]

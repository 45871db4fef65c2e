-- ===== src/Messages.antt =====
-- socketApi/baseType.go: the messages of the socket protocol, what they are written as and how
-- encoding/json reads them into their struct types.
pub mod RoundTrip
pub mod Answers
use realtime_data_center.Base.{
  ℕ, ◌≡◌, refl, Bool, true, false, ◌&&◌, not, List, [], ◌∷◌, ◌++◌, Option, if◌then◌else◌, Bytes,
  utf8, bytes_eq,
}
use realtime_data_center.Base.Int.{ℤ, pos}
use realtime_data_center.Value.{Value, null}
use realtime_data_center.Visitor.{ReadResult, ReadBufferResult, is_nil_result, get_result, nil_key}
use realtime_data_center.Golib.Unmarshal.{Setter, is_key, text_field, int_field, to_value}
use realtime_data_center.Control.{signed_decimal}

pub record VisitorBase : Type 0 where
  pub path : Bytes
  pub visitor : Bytes

-- The zero values of the struct types are named for them.
abbrev pub visitor_base : VisitorBase
visitor_base = record { path = []; visitor = [] }

-- `fmt.Sprintf` puts the texts between the quotes as they are.
unfoldable pub visitor_base_string : VisitorBase → Bytes
visitor_base_string ret =
    utf8 "{\"path\":\"" ++ (ret.path ++ (utf8 "\",\"visitor\":\"" ++ (ret.visitor ++ utf8 "\"}")))

unfoldable pub set_visitor_base : Setter VisitorBase
set_visitor_base key v ret =
    let (path, bad_path) = text_field v ret.path in
    let (visitor, bad_visitor) = text_field v ret.visitor in
    if is_key (utf8 "path") key
    then (record ret { path = path }, bad_path)
    else if is_key (utf8 "visitor") key
    then (record ret { visitor = visitor }, bad_visitor)
    else (ret, false)

pub record VisitorWrite : Type 0 where
  pub base : VisitorBase
  pub open base use *
  pub data_input : Value

abbrev pub visitor_write : VisitorWrite
visitor_write = record { base = visitor_base; data_input = null }

unfoldable pub set_visitor_write : (Bytes → Option ℕ) → Setter VisitorWrite
unfolding set_visitor_base to_value
set_visitor_write parse_float key v ret =
    let (value, bad) = to_value parse_float v in
    let (base, bad_base) = set_visitor_base key v ret.base in
    if is_key (utf8 "data") key
    then (record ret { data_input = value }, bad)
    else (record ret { base = base }, bad_base)

-- What a client reads of a notification.
pub record ChangeNotifyJson : Type 0 where
  pub input : VisitorWrite
  pub open input use *
  pub timestamp : ℤ

abbrev pub change_notify_json : ChangeNotifyJson
change_notify_json = record { input = visitor_write; timestamp = pos 0 }

unfoldable pub set_change_notify_json : (Bytes → Option ℕ) → Setter ChangeNotifyJson
unfolding set_visitor_write int_field
set_change_notify_json parse_float key v ret =
    let (timestamp, bad) = int_field v ret.timestamp in
    let (input, bad_input) = set_visitor_write parse_float key v ret.input in
    if is_key (utf8 "timestamp") key
    then (record ret { timestamp = timestamp }, bad)
    else (record ret { input = input }, bad_input)

pub record VisitorRequestNotify : Type 0 where
  pub base : VisitorBase
  pub open base use *
  pub timeout : ℤ

abbrev pub visitor_request_notify : VisitorRequestNotify
visitor_request_notify = record { base = visitor_base; timeout = pos 0 }

unfoldable pub visitor_request_notify_string : VisitorRequestNotify → Bytes
visitor_request_notify_string ret =
    utf8 "{\"path\":\""
    ++ (ret.path
        ++ (utf8 "\",\"visitor\":\""
            ++ (ret.visitor
                ++ (utf8 "\",\"timeout\":" ++ (signed_decimal ret.timeout ++ utf8 "}")))))

unfoldable pub set_visitor_request_notify : Setter VisitorRequestNotify
unfolding set_visitor_base int_field
set_visitor_request_notify key v ret =
    let (timeout, bad) = int_field v ret.timeout in
    let (base, bad_base) = set_visitor_base key v ret.base in
    if is_key (utf8 "timeout") key
    then (record ret { timeout = timeout }, bad)
    else (record ret { base = base }, bad_base)

-- The payload is a JSON text.
pub record ChangeNotify : Type 0 where
  pub base : VisitorBase
  pub open base use *
  pub timestamp : ℤ
  pub payload : ReadResult

abbrev pub change_notify : ChangeNotify
change_notify = record { base = visitor_base; timestamp = pos 0; payload = nil_key }

-- `SetPayload` replaces all fields.
unfoldable pub set_payload : Bytes → ReadBufferResult → ChangeNotify
set_payload path result =
    let (visitor, payload, timestamp) = get_result result in
    record {
      base = record { path = path; visitor = visitor };
      timestamp = timestamp;
      payload = payload;
    }

-- The text of a payload, null if there is none.
abbrev pub payload_text : ReadResult → Bytes
payload_text payload = if is_nil_result payload then utf8 "null" else payload

unfoldable pub change_notify_string : ChangeNotify → Bytes
change_notify_string ret =
    utf8 "{\"path\":\""
    ++ (ret.path
        ++ (utf8 "\",\"visitor\":\""
            ++ (ret.visitor
                ++ (utf8 "\",\"timestamp\":"
                    ++ (signed_decimal ret.timestamp
                        ++ (utf8 ",\"data\":" ++ (payload_text ret.payload ++ utf8 "}")))))))

pub record ReturnBase : Type 0 where
  pub status : Bytes
  pub reason : Bytes

abbrev pub return_base : ReturnBase
return_base = record { status = []; reason = [] }

abbrev pub success : ReturnBase → Bool
success ret = bytes_eq ret.status (utf8 "ok")

-- `Set`. Success keeps the reason that is there.
unfoldable pub set_return : Bool → Bytes → ReturnBase → ReturnBase
set_return true fail_reason ret = record ret { status = utf8 "ok" }
set_return false fail_reason ret = record { status = utf8 "fail"; reason = fail_reason }

-- A status that is neither of the two is a fault of the server's.
abbrev pub checked : ReturnBase → ReturnBase
checked ret =
    if not (bytes_eq ret.status (utf8 "ok")) && not (bytes_eq ret.status (utf8 "fail"))
    then record { status = utf8 "fail"; reason = utf8 "ReturnBase未初始化" }
    else ret

unfoldable pub return_base_string : ReturnBase → Bytes
return_base_string ret =
    let ret = checked ret in
    utf8 "{\"status\":\"" ++ (ret.status ++ (utf8 "\",\"reason\":\"" ++ (ret.reason ++ utf8 "\"}")))

unfoldable pub set_return_base : Setter ReturnBase
set_return_base key v ret =
    let (status, bad_status) = text_field v ret.status in
    let (reason, bad_reason) = text_field v ret.reason in
    if is_key (utf8 "status") key
    then (record ret { status = status }, bad_status)
    else if is_key (utf8 "reason") key
    then (record ret { reason = reason }, bad_reason)
    else (ret, false)

pub record ReturnWithPayload : Type 0 where
  pub base : ReturnBase
  pub open base use *
  pub payload : ReadResult

unfoldable pub return_with_payload_string : ReturnWithPayload → Bytes
return_with_payload_string ret =
    utf8 "{\"status\":\""
    ++ (ret.status
        ++ (utf8 "\",\"reason\":\""
            ++ (ret.reason ++ (utf8 "\",\"data\":" ++ (payload_text ret.payload ++ utf8 "}")))))

pub record ReturnWithJsonPayload : Type 0 where
  pub base : ReturnBase
  pub open base use *
  pub payload : Value

abbrev pub return_with_json_payload : ReturnWithJsonPayload
return_with_json_payload = record { base = return_base; payload = null }

unfoldable pub set_return_with_json_payload : (Bytes → Option ℕ) → Setter ReturnWithJsonPayload
unfolding set_return_base to_value
set_return_with_json_payload parse_float key v ret =
    let (value, bad) = to_value parse_float v in
    let (base, bad_base) = set_return_base key v ret.base in
    if is_key (utf8 "data") key
    then (record ret { payload = value }, bad)
    else (record ret { base = base }, bad_base)

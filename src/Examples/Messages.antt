-- ===== src/Examples/Messages.antt =====
-- socketApi/baseType.go: the theorems on messages at concrete ones.
use realtime_data_center.Base.{
  ap, ℕ, ◌≡◌, refl, inl, false, [], ◌∷◌, Option, some, arith, Bytes, utf8, bytes_eq, decimal,
}
use realtime_data_center.Base.Int.{pos, negsuc}
use realtime_data_center.Golib.Strconv.{value_from}
use realtime_data_center.Golib.Decimal.{value_from-decimal}
use realtime_data_center.Golib.Unquote.{valid_fuel}
use realtime_data_center.Golib.Scan.{number_literal}
use realtime_data_center.Golib.Reading.{IsPlain, decimal-Reads}
use realtime_data_center.Golib.Unmarshal.{to_value, unmarshal}
use realtime_data_center.Value.{float}
use realtime_data_center.Value.Marshal.Canonical.{IsCanonical}
use realtime_data_center.Messages.{
  VisitorBase, visitor_request_notify_string, visitor_request_notify, set_visitor_request_notify,
  change_notify_string, set_visitor_write, visitor_write, return_with_payload_string,
  set_return_with_json_payload, return_with_json_payload,
}
use realtime_data_center.Messages.RoundTrip.{
  unmarshal-change_notify_string, unmarshal-visitor_request_notify_string,
}
use realtime_data_center.Messages.Answers.{unmarshal-return_with_payload_string}

abbrev pub plc : VisitorBase
plc = record { path = utf8 "pump/speed"; visitor = utf8 "plc" }

pub road-IsPlain : IsPlain (utf8 "pump/speed")
unfolding valid_fuel
road-IsPlain = (omega arith, refl)

pub name-IsPlain : IsPlain (utf8 "plc")
unfolding valid_fuel
name-IsPlain = (omega arith, refl)

-- Numbers are whole here.
abbrev pub parse_float : Bytes → Option ℕ
parse_float raw = some (value_from 0 raw)

pub two : IsCanonical decimal parse_float (float 2)
unfolding IsCanonical
two = (decimal-Reads 2, ap some (value_from-decimal 2))

unmarshal-visitor_request_notify_string_test :
    unmarshal set_visitor_request_notify
      (visitor_request_notify_string (record { base = plc; timeout = negsuc 4 }))
      visitor_request_notify
    ≡ (record { base = plc; timeout = negsuc 4 }, false)
unmarshal-visitor_request_notify_string_test =
    unmarshal-visitor_request_notify_string (record { base = plc; timeout = negsuc 4 }) road-IsPlain
      name-IsPlain (omega arith)

unmarshal-change_notify_string_test :
    unmarshal
      (set_visitor_write parse_float)
      (change_notify_string (record { base = plc; timestamp = pos 9; payload = b'2' ∷ [] }))
      visitor_write
    ≡ (
      record { base = plc; data_input = (to_value parse_float (number_literal (decimal 2))).0 },
      false,
    )
unfolding decimal to_value bytes_eq
unmarshal-change_notify_string_test =
    unmarshal-change_notify_string parse_float
      (record { base = plc; timestamp = pos 9; payload = b'2' ∷ [] }) (number_literal (decimal 2))
      road-IsPlain name-IsPlain (decimal-Reads 2)

unmarshal-return_with_payload_string_example :
    unmarshal
      (set_return_with_json_payload parse_float)
      (return_with_payload_string
        (record { base = record { status = utf8 "ok"; reason = [] }; payload = b'2' ∷ [] }))
      return_with_json_payload
    ≡ (
      record {
        base = record { status = utf8 "ok"; reason = [] };
        payload = (to_value parse_float (number_literal (decimal 2))).0;
      },
      false,
    )
unfolding decimal to_value bytes_eq valid_fuel
unmarshal-return_with_payload_string_example =
    unmarshal-return_with_payload_string parse_float
      (record { base = record { status = utf8 "ok"; reason = [] }; payload = b'2' ∷ [] })
      (number_literal (decimal 2)) (inl refl) (tt, refl) (decimal-Reads 2)

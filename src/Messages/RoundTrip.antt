-- ===== src/Messages/RoundTrip.antt =====
-- socketApi/baseType.go: the messages as they are written, read back by encoding/json.
use realtime_data_center.Control.{signed_decimal}
use realtime_data_center.Base.Words.{IsInt64}
use realtime_data_center.Base.{
  Bool, ◌-◌, ◌+◌, ℕ, ◌≡◌, refl, ap, ◌∙◌, inl, inr, false, [], ◌∷◌, ◌++◌, Option, none, some, Bytes,
  bytes_eq, utf8, arith,
}
use realtime_data_center.Base.Int.{ℤ, pos, negsuc}
use realtime_data_center.Golib.Scan.{
  Syntax, Members, string_literal, number_literal, object_literal, member, no_members, value_frame,
  want_value, after_value, scan, feed, scanned, parse,
}
use realtime_data_center.Golib.Strconv.{atoi, AtoiError}
use realtime_data_center.Golib.Decimal.{atoi-decimal, atoi-negative_decimal}
use realtime_data_center.Golib.Unquote.{unquote}
use realtime_data_center.Golib.Reading.{
  negative-Reads, decimal-Reads, IsPlain, Reads, scan-append, scan_text,
}
use realtime_data_center.Golib.Unmarshal.{to_value, int_field, unmarshal, into_struct, fold_key}
use realtime_data_center.Messages.{
  ChangeNotifyJson, change_notify_json, Value, set_change_notify_json, ChangeNotify,
  change_notify_string, payload_text, set_visitor_write, visitor_write, VisitorBase, visitor_base,
  visitor_base_string, set_visitor_base, VisitorRequestNotify, visitor_request_notify,
  set_visitor_request_notify, visitor_request_notify_string,
}

-- A text that takes the scanner through one value is the text of that value.
pub parse-scan :
    (p : Bytes) {v : Syntax} → scan p (want_value, []) ≡ (after_value v, []) → parse p ≡ some v
unfolding parse scan feed
parse-scan p e = ap scanned (scan-append p (0x20 ∷ []) (want_value, []) ∙ ap (scan (0x20 ∷ [])) e)

-- The first member of every message but the answers.
path_member : Bytes → Members
path_member path = member no_members (utf8 "path") (string_literal path)

base_members : VisitorBase → Members
base_members base = member (path_member base.path) (utf8 "visitor") (string_literal base.visitor)

-- The start of those messages, up to the end of the visitor's name.
scan_base :
    (base : VisitorBase) (rest : Bytes)
    → IsPlain base.path
    → IsPlain base.visitor
    → scan
        (utf8 "{\"path\":\""
          ++ (base.path ++ (utf8 "\",\"visitor\":\"" ++ (base.visitor ++ b'"' ∷ rest))))
        (want_value, [])
      ≡ scan rest (
        after_value (string_literal base.visitor),
        value_frame (path_member base.path) (utf8 "visitor") ∷ [],
      )
unfolding scan feed path_member unquote
scan_base base rest hp hv =
    scan_text base.path _ (value_frame no_members (utf8 "path") ∷ []) hp
    ∙ scan_text base.visitor rest (value_frame (path_member base.path) (utf8 "visitor") ∷ []) hv

-- The request for a path: what the server reads is what was written, if neither the path nor the name
-- holds a quote, a backslash, a control character or bytes that are no UTF-8.
pub unmarshal-visitor_base_string :
    (r : VisitorBase)
    → IsPlain r.path
    → IsPlain r.visitor
    → unmarshal set_visitor_base (visitor_base_string r) visitor_base ≡ (r, false)
unfolding unmarshal visitor_base_string set_visitor_base base_members path_member scan feed unquote
    bytes_eq fold_key into_struct
unmarshal-visitor_base_string r hp hv =
    rw
      (
        parse-scan (visitor_base_string r) {v = object_literal (base_members r)}
            (scan_base r (utf8 "}") hp hv),
        unmarshal,
      )
      refl

signed_decimal-Reads : (z : ℤ) → Reads (signed_decimal z) (number_literal (signed_decimal z))
unfolding signed_decimal
signed_decimal-Reads (pos n) = decimal-Reads n
signed_decimal-Reads (negsuc n) = negative-Reads (n + 1)

atoi-signed_decimal : (z : ℤ) → IsInt64 z → atoi (signed_decimal z) ≡ (z, none)
unfolding signed_decimal
atoi-signed_decimal (pos n) h = atoi-decimal n h
atoi-signed_decimal (negsuc n) h =
    atoi-negative_decimal (n + 1) (omega arith) (omega (arith, h))
    ∙ ap (λ m. (negsuc m, none)) (cancel n)
  where
    cancel : (n : ℕ) → n + 1 - 1 ≡ n
    cancel n = omega arith

int_field-signed_decimal :
    (z old : ℤ) → IsInt64 z → int_field (number_literal (signed_decimal z)) old ≡ (z, false)
unfolding int_field
int_field-signed_decimal z old h =
    rw (int_field, atoi-signed_decimal z h)
      (ap (λ (r : ℤ × Option AtoiError). (r.0, false)) (atoi-signed_decimal z h))

-- The request for a notification: what the server reads is what was written, if the texts are plain and
-- the timeout is an int64.
pub unmarshal-visitor_request_notify_string :
    (r : VisitorRequestNotify)
    → IsPlain r.path
    → IsPlain r.visitor
    → IsInt64 r.timeout
    → unmarshal set_visitor_request_notify (visitor_request_notify_string r) visitor_request_notify
      ≡ (r, false)
unfolding unmarshal visitor_request_notify_string set_visitor_request_notify base_members
    path_member scan feed unquote bytes_eq fold_key into_struct
unmarshal-visitor_request_notify_string r hp hv ht =
    rw
      (
        parse-scan (visitor_request_notify_string r)
            {v = object_literal (
              member (base_members r.base) (utf8 "timeout")
                (number_literal (signed_decimal r.timeout)))}
            (scan_base r.base _ hp hv ∙ signed_decimal-Reads r.timeout b'}' [] _ (inr (inl refl))),
        unmarshal,
        int_field-signed_decimal r.timeout (pos 0) ht,
      )
      refl

change_members : ChangeNotify → Syntax → Members
change_members r s =
    member
      (member (base_members r.base) (utf8 "timestamp")
        (number_literal (signed_decimal r.timestamp)))
      (utf8 "data") s

parse-change_notify_string :
    (r : ChangeNotify) (s : Syntax)
    → IsPlain r.path
    → IsPlain r.visitor
    → Reads (payload_text r.payload) s
    → parse (change_notify_string r) ≡ some (object_literal (change_members r s))
unfolding change_notify_string change_members base_members path_member scan feed unquote
parse-change_notify_string r s hp hv reads =
    parse-scan (change_notify_string r) {v = object_literal (change_members r s)} (
      scan_base r.base _ hp hv
      ∙ signed_decimal-Reads r.timestamp b',' _ _ (inl refl)
      ∙ reads b'}' [] _ (inr (inl refl)))

-- A write: what the server reads has the same path and name, if they are plain, and as data what the
-- text of the payload stands for, whatever the time is.
pub unmarshal-change_notify_string :
    (parse_float : Bytes → Option ℕ) (r : ChangeNotify) (s : Syntax)
    → IsPlain r.path
    → IsPlain r.visitor
    → Reads (payload_text r.payload) s
    → let (value, wrong) = to_value parse_float s in
      unmarshal (set_visitor_write parse_float) (change_notify_string r) visitor_write
      ≡ (record { base = r.base; data_input = value }, wrong)
unfolding unmarshal change_notify_string set_visitor_write change_members base_members path_member
    scan feed unquote bytes_eq fold_key into_struct
unmarshal-change_notify_string parse_float r s hp hv reads =
    rw (parse-change_notify_string r s hp hv reads, unmarshal) refl

-- A notification: what a client reads has the same path, name and time, if the texts are plain and the
-- time is an int64, and as data what the text of the payload stands for.
pub unmarshal-change_notify_json :
    (parse_float : Bytes → Option ℕ) (r : ChangeNotify) (s : Syntax) (value : Value)
    → IsPlain r.path
    → IsPlain r.visitor
    → IsInt64 r.timestamp
    → Reads (payload_text r.payload) s
    → to_value parse_float s ≡ (value, false)
    → unmarshal (set_change_notify_json parse_float) (change_notify_string r) change_notify_json ≡ (
      record { input = record { base = r.base; data_input = value }; timestamp = r.timestamp },
      false,
    )
unfolding unmarshal change_notify_string set_change_notify_json set_visitor_write change_members
    base_members path_member scan feed unquote bytes_eq fold_key into_struct
unmarshal-change_notify_json parse_float r s value hp hv ht reads e =
    rw
      (
        parse-change_notify_string r s hp hv reads,
        unmarshal,
        int_field-signed_decimal r.timestamp (pos 0) ht,
      )
      (ap
        (λ (x : Value × Bool).
          let found : ChangeNotifyJson = record {
            input = record { base = r.base; data_input = x.0 };
            timestamp = r.timestamp;
          } in
          (found, x.1))
        e)

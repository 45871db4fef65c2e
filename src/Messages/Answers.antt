-- ===== src/Messages/Answers.antt =====
-- socketApi/baseType.go: the answers as the server writes them, read back by encoding/json.
use realtime_data_center.Base.{
  subst, ℕ, ◌≡◌, refl, sym, ap, ◌∙◌, ◌⊎◌, inl, inr, false, [], ◌∷◌, ◌++◌, Option, some, Bytes,
  bytes_eq, utf8, arith,
}
use realtime_data_center.Golib.Scan.{
  Syntax, Members, string_literal, object_literal, member, no_members, value_frame, want_value,
  after_value, scan, feed, parse,
}
use realtime_data_center.Golib.Unquote.{unquote, valid_fuel}
use realtime_data_center.Golib.Reading.{IsPlain, Reads, scan_text}
use realtime_data_center.Golib.Unmarshal.{unmarshal, into_struct, fold_key, to_value}
use realtime_data_center.Messages.{
  ReturnBase, return_base, return_base_string, set_return_base, checked, ReturnWithPayload,
  return_with_payload_string, return_with_json_payload, set_return_with_json_payload, payload_text,
}
use realtime_data_center.Messages.RoundTrip.{parse-scan}

-- The statuses that the server gives.
abbrev pub IsStatus : Bytes → Type 0
IsStatus s = (s ≡ utf8 "ok") ⊎ (s ≡ utf8 "fail")

IsStatus-IsPlain : (s : Bytes) → IsStatus s → IsPlain s
unfolding valid_fuel
IsStatus-IsPlain s (inl e) = subst IsPlain (sym e) (ground arith, refl)
IsStatus-IsPlain s (inr e) = subst IsPlain (sym e) (ground arith, refl)

checked_status : (r : ReturnBase) → IsStatus r.status → checked r ≡ r
unfolding bytes_eq
checked_status r (inl e) = rw e refl
checked_status r (inr e) = rw e refl

status_member : Bytes → Members
status_member status = member no_members (utf8 "status") (string_literal status)

answer_members : ReturnBase → Members
answer_members base =
    member (status_member base.status) (utf8 "reason") (string_literal base.reason)

scan_answer :
    (base : ReturnBase) (rest : Bytes)
    → IsStatus base.status
    → IsPlain base.reason
    → scan
        (utf8 "{\"status\":\""
          ++ (base.status ++ (utf8 "\",\"reason\":\"" ++ (base.reason ++ b'"' ∷ rest))))
        (want_value, [])
      ≡ scan rest (
        after_value (string_literal base.reason),
        value_frame (status_member base.status) (utf8 "reason") ∷ [],
      )
unfolding scan feed status_member unquote
scan_answer base rest hs hr =
    scan_text base.status _ (value_frame no_members (utf8 "status") ∷ [])
      (IsStatus-IsPlain base.status hs)
    ∙ scan_text base.reason rest (value_frame (status_member base.status) (utf8 "reason") ∷ []) hr

parse-return_base_string :
    (r : ReturnBase)
    → IsStatus r.status
    → IsPlain r.reason
    → parse (return_base_string r) ≡ some (object_literal (answer_members r))
unfolding return_base_string answer_members status_member scan feed
parse-return_base_string r hs hr =
    ap
      (λ (b : ReturnBase). parse (
        utf8 "{\"status\":\""
        ++ (b.status ++ (utf8 "\",\"reason\":\"" ++ (b.reason ++ utf8 "\"}")))))
      (checked_status r hs)
    ∙ parse-scan _ (scan_answer r (utf8 "}") hs hr)

-- An answer without data: a client reads what was written, if the reason is plain.
pub unmarshal-return_base_string :
    (r : ReturnBase)
    → IsStatus r.status
    → IsPlain r.reason
    → unmarshal set_return_base (return_base_string r) return_base ≡ (r, false)
unfolding unmarshal return_base_string set_return_base answer_members status_member scan feed
    unquote bytes_eq fold_key into_struct
unmarshal-return_base_string r hs hr = rw (parse-return_base_string r hs hr, unmarshal) refl

-- An answer with data: a client reads the same status and reason, if the reason is plain, and what the
-- text of the data stands for.
pub unmarshal-return_with_payload_string :
    (parse_float : Bytes → Option ℕ) (r : ReturnWithPayload) (s : Syntax)
    → IsStatus r.status
    → IsPlain r.reason
    → Reads (payload_text r.payload) s
    → let (value, wrong) = to_value parse_float s in
      unmarshal
        (set_return_with_json_payload parse_float)
        (return_with_payload_string r)
        return_with_json_payload
      ≡ (record { base = r.base; payload = value }, wrong)
unfolding unmarshal return_with_payload_string set_return_with_json_payload answer_members
    status_member scan feed unquote bytes_eq fold_key into_struct
unmarshal-return_with_payload_string parse_float r s hs hr reads =
    rw
      (
        parse-scan (return_with_payload_string r)
            {v = object_literal (member (answer_members r.base) (utf8 "data") s)}
            (scan_answer r.base _ hs hr ∙ reads b'}' [] _ (inr (inl refl))),
        unmarshal,
      )
      refl

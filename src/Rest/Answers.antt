-- ===== src/Rest/Answers.antt =====
-- restfulApi/restfulApi.go: the answers to reads.
use realtime_data_center.Base.{
  subst, ◌≡◌, refl, ap, ◌∙◌, inl, inr, List, [], ◌∷◌, ◌++◌, Option, none, some, Bytes, utf8,
  bytes_eq, Option-cases, arith,
}
use realtime_data_center.Golib.Unquote.{unquote, valid_fuel}
use realtime_data_center.Golib.Scan.{
  Frame, parse, scan, feed, scanned, string_literal, want_value, no_members, member, value_frame,
  failed,
}
use realtime_data_center.Golib.Reading.{IsPlain, scan_text, scan-append}
use realtime_data_center.Value.Marshal.Scanned.{scan_failed}
use realtime_data_center.Api.{ControlApi}
use realtime_data_center.Rest.{
  visitor_name, ReturnWithPayloadOnReadBuffer, ReadResult, Request, set_return, judge,
  return_on_read_buffer, return_on_read_buffer_string, read_now, visitor_read,
}

parse_failed :
    (p : Bytes) (frames : List Frame) → scan p (want_value, []) ≡ (failed, frames) → parse p ≡ none
unfolding parse scan feed scanned
parse_failed p frames e =
    ap scanned (scan-append p (0x20 ∷ []) (want_value, []) ∙ ap (scan (0x20 ∷ [])) e)

-- What stands before the writer, and what follows it if it has no name.
before_writer : Bytes → Bytes → Bytes → Bytes
before_writer status reason rest =
    utf8 "{\"status\":\""
    ++ (status ++ (utf8 "\",\"reason\":\"" ++ (reason ++ (utf8 "\",\"visitor\":" ++ rest))))

-- Where the writer has no name, a comma stands for its value.
parse_no_writer :
    (status reason rest : Bytes)
    → IsPlain status
    → IsPlain reason
    → parse (before_writer status reason (b',' ∷ rest)) ≡ none
unfolding scan feed before_writer unquote
parse_no_writer status reason rest hs hr = parse_failed _ _ (
    scan_text status _ (value_frame no_members (utf8 "status") ∷ []) hs
    ∙ scan_text reason _
        (value_frame (member no_members (utf8 "status") (string_literal status)) (utf8 "reason")
          ∷ [])
        hr
    ∙ scan_failed rest _)

-- The answer to a read without waiting, by the result.
quick : ReadResult → ReturnWithPayloadOnReadBuffer
quick result = judge (record return_on_read_buffer { payload = result })

parse-quick : (result : Bytes) → parse (return_on_read_buffer_string (quick result)) ≡ none
unfolding quick return_on_read_buffer_string set_return before_writer valid_fuel bytes_eq
parse-quick [] =
    parse_no_writer (utf8 "fail") (utf8 "读返回nil") _ (omega arith, refl) (omega arith, refl)
parse-quick (c ∷ s) = parse_no_writer (utf8 "ok") [] _ (omega arith, refl) (tt, refl)

module _ {S : Type 0} where
  abbrev IfAnswered : Option (S × Bytes) → Type 0
  IfAnswered none = Unit {0}
  IfAnswered (some (c, answer)) = parse answer ≡ none

  read_quick-IfAnswered :
      (api : ControlApi S) (atoi_error : Bytes → Bytes) (request : Request) (c : S)
      → request.wait ≡ []
      → IfAnswered (visitor_read api atoi_error request c)
  unfolding visitor_read read_now bytes_eq quick
  read_quick-IfAnswered api atoi_error request c w =
      elim (Option-cases (api.read_quickly (visitor_name request) request.sub_path c)) [
        | inl e ↦ rw (w, visitor_read, e, read_now) tt
        | inr ((c', result), e) ↦ rw (w, visitor_read, e, read_now) (parse-quick result)
      ]

  -- No answer to a read without a waiting time is JSON, whatever the kernel answers.
  pub visitor_read-parse :
      (api : ControlApi S) (atoi_error : Bytes → Bytes) (request : Request) (c c' : S)
      (answer : Bytes)
      → request.wait ≡ []
      → visitor_read api atoi_error request c ≡ some (c', answer)
      → parse answer ≡ none
  visitor_read-parse api atoi_error request c c' answer w e =
      subst IfAnswered e (read_quick-IfAnswered api atoi_error request c w)

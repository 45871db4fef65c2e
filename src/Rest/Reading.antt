-- ===== src/Rest/Reading.antt =====
-- restfulApi/restfulApi.go and resetfulClient/client.go: the client's reads of the server's answers.
use realtime_data_center.Base.{◌≡◌, refl, Bool, false, [], none, some, Bytes, bytes_eq}
use realtime_data_center.Golib.Scan.{Syntax, parse}
use realtime_data_center.Golib.Unmarshal.{unmarshal, unmarshal-none}
use realtime_data_center.Messages.{success, set_return, return_base}
use realtime_data_center.Api.{ControlApi}
use realtime_data_center.Rest.{Request, visitor_read}
use realtime_data_center.Rest.Answers.{visitor_read-parse}
use realtime_data_center.RestClient.{
  Settings, Response, response, read_url, http_read, set_return_with_payload,
}

http_read_no_json :
    {P : Type 0} (decode : Syntax → P → P × Bool) (json_error : Bytes → Bytes) (s : Settings)
    (path : Bytes) (payload_type : P) (get : Bytes → Response) {answer : Bytes}
    → get (read_url s path) ≡ response answer
    → parse answer ≡ none
    → success (http_read decode json_error s path payload_type get).base ≡ false
unfolding http_read unmarshal set_return bytes_eq
http_read_no_json decode json_error s path payload_type get {answer} e bad =
    rw
      (
        e,
        http_read,
        unmarshal-none (set_return_with_payload decode json_error s) answer
            (record { base = return_base; payload = payload_type }) bad,
      )
      refl

-- The client's read without a waiting time never succeeds: whatever the kernel answers, the client
-- takes the server's answer for an error.
pub http_read-visitor_read :
    {P S : Type 0} (decode : Syntax → P → P × Bool) (json_error atoi_error : Bytes → Bytes)
    (s : Settings) (path : Bytes) (payload_type : P) (get : Bytes → Response) (api : ControlApi S)
    (request : Request) (c c' : S) (answer : Bytes)
    → request.wait ≡ []
    → visitor_read api atoi_error request c ≡ some (c', answer)
    → get (read_url s path) ≡ response answer
    → success (http_read decode json_error s path payload_type get).base ≡ false
http_read-visitor_read decode json_error atoi_error s path payload_type get api request c c' answer
      w e got =
    http_read_no_json decode json_error s path payload_type get got
      (visitor_read-parse api atoi_error request c c' answer w e)

-- ===== src/RestClient.antt =====
-- resetfulClient/client.go: a client of the REST interface. What net/http gives for a request is an
-- argument. The type ReturnBase and its methods are those of the socket messages; the data is read into
-- a variable of the caller's type.
use realtime_data_center.Base.{Bool, false, ◌++◌, if◌then◌else◌, Bytes, utf8}
use realtime_data_center.Base.Int.{ℤ}
use realtime_data_center.Golib.Scan.{Syntax}
use realtime_data_center.Golib.Unmarshal.{Setter, is_key, unmarshal}
use realtime_data_center.Messages.{ReturnBase, return_base, set_return, set_return_base}
use realtime_data_center.Control.{signed_decimal}

-- The two variables of the package.
pub record Settings : Type 0 where
  pub server_addr : Bytes
  pub visitor_name : Bytes

abbrev pub settings : Settings
settings = record {
  server_addr = utf8 "http://wide.fgy:8083/v1.0/realtime";
  visitor_name = utf8 "dgl";
}

abbrev pub set_server_addr : Bytes → Settings → Settings
set_server_addr addr s = record s { server_addr = addr }

abbrev pub set_visitor_name : Bytes → Settings → Settings
set_visitor_name name s = record s { visitor_name = name }

pub record ReturnWithPayload (P : Type 0) : Type 0 where
  pub base : ReturnBase
  pub open base use *
  pub payload : P

-- No response, a body that cannot be read, or a body.
pub data Response : Type 0 where
  no_response : Bytes → Response
  unreadable : Bytes → Response
  response : Bytes → Response

unfoldable pub read_url : Settings → Bytes → Bytes
read_url s path = s.server_addr ++ (utf8 "/" ++ (path ++ (utf8 "?visitor=" ++ s.visitor_name)))

unfoldable pub wait_url : Settings → Bytes → ℤ → Bytes → Bytes
unfolding signed_decimal
wait_url s path timeout visitor_name =
    s.server_addr
    ++ (utf8 "/"
        ++ (path
            ++ (utf8 "?visitor=" ++ (visitor_name ++ (utf8 "&wait=" ++ signed_decimal timeout)))))

module _ {P : Type 0} (decode : Syntax → P → P × Bool) (json_error : Bytes → Bytes)
    (s : Settings) where
  unfoldable pub set_return_with_payload : Setter (ReturnWithPayload P)
  unfolding set_return_base
  set_return_with_payload key v ret =
      let (payload, bad) = decode v ret.payload in
      let (base, bad_base) = set_return_base key v ret.base in
      if is_key (utf8 "data") key
      then (record ret { payload = payload }, bad)
      else (record ret { base = base }, bad_base)

  abbrev fail_with : Bytes → ReturnWithPayload P → ReturnWithPayload P
  fail_with reason ret = record ret { base = set_return false reason ret.base }

  -- `HttpReadWithTimeoutWithName`
  unfoldable pub http_read_with_timeout_with_name :
      Bytes → ℤ → P → Bytes → (Bytes → Response) → ReturnWithPayload P
  unfolding wait_url set_return_with_payload unmarshal set_return
  http_read_with_timeout_with_name path timeout payload_type visitor_name get =
      let empty : ReturnWithPayload P = record { base = return_base; payload = payload_type } in
      elim (get (wait_url s path timeout visitor_name)) [
        | no_response err ↦ fail_with err empty
        | unreadable err ↦ fail_with err empty
        | response ret_bytes ↦
            let (ret, wrong) = unmarshal set_return_with_payload ret_bytes empty in
            if wrong then fail_with (json_error ret_bytes ++ (utf8 "\n" ++ ret_bytes)) ret else ret
      ]

  unfoldable pub http_read_with_timeout : Bytes → ℤ → P → (Bytes → Response) → ReturnWithPayload P
  unfolding http_read_with_timeout_with_name
  http_read_with_timeout path timeout payload_type get =
      http_read_with_timeout_with_name path timeout payload_type s.visitor_name get

  unfoldable pub http_read : Bytes → P → (Bytes → Response) → ReturnWithPayload P
  unfolding read_url set_return_with_payload unmarshal set_return
  http_read path payload_type get =
      let empty : ReturnWithPayload P = record { base = return_base; payload = payload_type } in
      elim (get (read_url s path)) [
        | no_response err ↦ fail_with err empty
        | unreadable err ↦ fail_with err empty
        | response ret_bytes ↦
            let (ret, wrong) = unmarshal set_return_with_payload ret_bytes empty in
            if wrong then fail_with (json_error ret_bytes) ret else ret
      ]

-- `HttpWrite`; the body goes to `post` with the address.
unfoldable pub http_write :
    (Bytes → Bytes) → Settings → Bytes → Bytes → (Bytes → Bytes → Response) → ReturnBase
unfolding read_url set_return_base unmarshal set_return
http_write json_error s path input post = elim (post (read_url s path) input) [
  | no_response err ↦ set_return false err return_base
  | unreadable err ↦ set_return false err return_base
  | response ret_bytes ↦
      let (ret, wrong) = unmarshal set_return_base ret_bytes return_base in
      if wrong then set_return false (json_error ret_bytes) ret else ret
]

-- ===== src/Server/Exchange.antt =====
-- socketApi/serverHandle.go: the handler's answers to writes and reads.
use realtime_data_center.Base.{
  subst, get_elem?, ℕ, ◌≡◌, ◌≢◌, refl, sym, ap, ◌∙◌, inl, inr, Bool, false, [], Option, none, some,
  Bytes, utf8, bytes_eq, bytes_eq_ne, Option-cases, arith,
}
use realtime_data_center.Value.{Value}
use realtime_data_center.Golib.Unquote.{valid_fuel}
use realtime_data_center.Golib.Scan.{Syntax}
use realtime_data_center.Golib.Reading.{Reads}
use realtime_data_center.Golib.Unmarshal.{to_value, unmarshal}
use realtime_data_center.Socket.{cmd_unblock_read, cmd_write}
use realtime_data_center.Messages.{
  visitor_base, visitor_write, set_visitor_base, set_visitor_write, VisitorBase,
  visitor_base_string, VisitorWrite, ChangeNotify, change_notify_string, payload_text, ReturnBase,
  return_base_string, set_return, ReturnWithJsonPayload, return_with_json_payload,
  set_return_with_json_payload,
}
use realtime_data_center.Messages.Answers.{unmarshal-return_with_payload_string}
use realtime_data_center.Api.{ControlApi}
use realtime_data_center.Server.{
  success_with_payload, read_answer, write_answer, Handler, write_data, unblock_read,
  socket_output_handle,
}

-- The answer of success.
abbrev pub ok_answer : ReturnBase
ok_answer = record { status = utf8 "ok"; reason = [] }

-- What a client makes of an answer with data.
abbrev pub client_reads :
    {S : Type 0}
    → (Bytes → Option ℕ)
    → Option (Handler S × Bytes)
    → Option (ReturnWithJsonPayload × Bool)
client_reads parse_float none = none
client_reads parse_float (some (h, answer)) =
    some (unmarshal (set_return_with_json_payload parse_float) answer return_with_json_payload)

module _ {S : Type 0} (api : ControlApi S) (parse_float : Bytes → Option ℕ)
    (json_error : ℕ → Bytes → Bytes) where
  -- A write that is answered by success was done without an error.
  pub write_data-ok :
      (request : VisitorWrite) (h h' : Handler S)
      → write_data api parse_float json_error request h ≡ some (h', return_base_string ok_answer)
      → api.write_quickly request.visitor request.path request.data_input h.control
        ≡ some (h'.control, none)
  unfolding write_data write_answer return_base_string set_return bytes_eq
  write_data-ok request h h' e =
      elim (Option-cases
        (api.write_quickly request.visitor request.path request.data_input h.control)) [
          | inl o ↦ cc (rw (o, write_data) at e)
          | inr ((c, problem), o) ↦ o ∙ done c problem (rw (o, write_data) at e)
        ]
    where
      differ : {A : Type 0} → Path (Option ℕ) (some b'f') (some b'o') → A
      differ e =
          let same : b'f' ≡ b'o' =
            ap (λ (o : Option ℕ). elim o as (λ _. ℕ) [ none ↦ 0 | some n ↦ n ]) e in
          let no : ⊥ = omega (arith, same) in elim no [ ]

      done :
          (c : S) (problem : Option Bytes)
          → Path
              (Option (Handler S × Bytes))
              (some (record h { control = c }, write_answer problem))
              (some (h', return_base_string ok_answer))
          → Path (Option (S × Option Bytes)) (some (c, problem)) (some (h'.control, none))
      done c none e =
          ap
            (λ (o : Option (Handler S × Bytes)). elim o as (λ _. Option (S × Option Bytes)) [
              | none ↦ none
              | some (x, _) ↦ some (x.control, none)
            ])
            e
      done c (some reason) e = differ (
          ap
            (λ (o : Option (Handler S × Bytes)). elim o as (λ _. Option ℕ) [
              | none ↦ none
              | some (_, answer) ↦ get_elem? answer 11
            ])
            e)

  -- What the server does with the packet of a write.
  pub write-request :
      (m : ChangeNotify) (v : Value) (h : Handler S)
      → unmarshal (set_visitor_write parse_float) (change_notify_string m) visitor_write
        ≡ (record { base = m.base; data_input = v }, false)
      → socket_output_handle api parse_float json_error cmd_write (change_notify_string m) h
        ≡ write_data api parse_float json_error (record { base = m.base; data_input = v }) h
  unfolding socket_output_handle
  write-request m v h e = rw (e, socket_output_handle) refl

  -- What the server does with the packet of a read.
  pub read-request :
      (r : VisitorBase) (h : Handler S)
      → unmarshal set_visitor_base (visitor_base_string r) visitor_base ≡ (r, false)
      → socket_output_handle api parse_float json_error cmd_unblock_read (visitor_base_string r) h
        ≡ unblock_read api parse_float json_error r h
  unfolding socket_output_handle
  read-request r h e = rw (e, socket_output_handle) refl

  pub read_answer_found :
      (path result : Bytes) → result ≢ [] → read_answer path result ≡ success_with_payload result
  unfolding read_answer
  read_answer_found path result ne = rw (bytes_eq_ne result [] ne) refl

  pub success-client :
      (result : Bytes) (s : Syntax) (v : Value)
      → result ≢ []
      → Reads result s
      → to_value parse_float s ≡ (v, false)
      → unmarshal
          (set_return_with_json_payload parse_float)
          (success_with_payload result)
          return_with_json_payload
        ≡ (record { base = ok_answer; payload = v }, false)
  unfolding set_return valid_fuel
  success-client result s v ne reads value =
      let text : payload_text result ≡ result = rw (bytes_eq_ne result [] ne) refl in
      unmarshal-return_with_payload_string parse_float
        (record { base = ok_answer; payload = result }) s (inl refl) (tt, refl)
        (subst (λ p. Reads p s) (sym text) reads)
      ∙ ap
          (λ (x : Value × Bool).
            let found : ReturnWithJsonPayload = record { base = ok_answer; payload = x.0 } in
            (found, x.1))
          value

  -- A read that finds a text which stands for a value.
  pub unblock_read-client :
      (r : VisitorBase) (h : Handler S) (c : S) (result : Bytes) (s : Syntax) (v : Value)
      → api.read_quickly r.visitor r.path h.control ≡ some (c, result)
      → result ≢ []
      → Reads result s
      → to_value parse_float s ≡ (v, false)
      → client_reads parse_float (unblock_read api parse_float json_error r h)
        ≡ some (record { base = ok_answer; payload = v }, false)
  unfolding unblock_read
  unblock_read-client r h c result s v e ne reads value =
      rw (e, unblock_read, read_answer_found r.path result ne)
        (ap some (success-client result s v ne reads value))

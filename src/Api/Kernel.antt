-- ===== src/Api/Kernel.antt =====
-- component/visitorsControl.go: the kernel behind the interfaces of the handlers.
use realtime_data_center.Base.{ℕ, ◌≡◌, ap, Bool, true, false, Option, none, some, Bytes}
use realtime_data_center.Control.{VisitorsControl}
use realtime_data_center.Control.Serve.{Around}
use realtime_data_center.Control.Calls.{
  Wait, WriteReply, written, no_answer, not_accepted, refused, write_quickly, read_quickly,
  read_buffer, read_with_time, register_notify,
}
use realtime_data_center.Control.Errors.{write_error}
use realtime_data_center.Api.{ControlApi, ReadsBack}
use realtime_data_center.Control.Requests.{read_quickly-write_quickly}
use realtime_data_center.Value.{Value}

-- What one call of the kernel meets: whether the kernel accepts the request, how it serves it, and for
-- the blocking reads their wait and what other goroutines do meanwhile to the kernel and the listener.
pub record Call : Type 0 where
  pub accepted : Bool
  pub around : Around
  pub wait : Wait
  pub meanwhile : VisitorsControl → Option (VisitorsControl × Bool)

-- What the caller of a write sees.
unfoldable pub write_outcome :
    Option (VisitorsControl × WriteReply) → Option (VisitorsControl × Option Bytes)
unfolding write_error
write_outcome none = none
write_outcome (some (c, reply)) = some (c, write_error reply)

outcome-written :
    (o : Option (VisitorsControl × WriteReply)) {c' : VisitorsControl}
    → write_outcome o ≡ some (c', none)
    → o ≡ some (c', written)
unfolding write_outcome write_error
outcome-written none h = cc
outcome-written (some (c, written)) {c'} h =
    let same : c ≡ c' = cc h in ap (λ x. some (x, written)) same
outcome-written (some (c, no_answer)) h = cc
outcome-written (some (c, not_accepted)) h = cc
outcome-written (some (c, refused e)) h = cc

module _ (float_text : ℕ → Bytes) (show : VisitorsControl → Bytes) where
  -- How the kernel answers a call. The text of its statistics is a parameter.
  unfoldable pub kernel_api : Call → ControlApi VisitorsControl
  unfolding read_quickly read_with_time read_buffer register_notify write_quickly write_outcome
  kernel_api call = record {
    read_quickly =
        λ name road c. some (read_quickly float_text call.accepted call.around name road c);
    read_with_time =
        λ name road timeout c. read_with_time float_text call.wait call.meanwhile name road c;
    read_buffer =
        λ name road timeout c. read_buffer float_text call.wait call.meanwhile name road c;
    register_notify =
        λ name road timeout c. some (register_notify call.accepted call.around name road timeout c);
    performance_show = show;
    write_quickly = λ name road payload c.
        write_outcome (write_quickly float_text call.accepted call.around name road payload c);
  }

  -- Only a write that is accepted and done reports no error.
  no_error-accepted :
      (accepted : Bool) (around : Around) (name road : Bytes) (payload : Value)
      (c : VisitorsControl) {c' : VisitorsControl}
      → write_outcome (write_quickly float_text accepted around name road payload c)
        ≡ some (c', none)
      → write_quickly float_text true around name road payload c ≡ some (c', written)
  unfolding write_quickly
  no_error-accepted true around name road payload c h = outcome-written _ h
  no_error-accepted false around name road payload c {c'} h =
      absurd (outcome-written (some (c, not_accepted)) h)
    where
      absurd :
          {A : Type 0}
          → Path
              (Option (VisitorsControl × WriteReply))
              (some (c, not_accepted))
              (some (c', written))
          → A
      absurd e = cc

  -- The interface's law, for a read that the kernel accepts and whose answer is taken.
  pub kernel_api-ReadsBack :
      (call call' : Call)
      → call'.accepted ≡ true
      → call'.around.taken ≡ true
      → ReadsBack float_text (kernel_api call) (kernel_api call')
  unfolding kernel_api
  kernel_api-ReadsBack call call' a t writer reader road below payload c c' q ne e h =
      let done = no_error-accepted call.accepted call.around writer road payload c h in
      let found =
        read_quickly-write_quickly float_text call.around call'.around writer reader road below
          payload c c' q t ne e done in
      (
        (read_quickly float_text true call'.around reader below c').0,
        rw a (
            ap (λ r. some ((read_quickly float_text true call'.around reader below c').0, r))
              found),
      )

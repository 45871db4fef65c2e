-- ===== src/Control/Shape.antt =====
-- component/visitorsControl.go: the top of the kernel's tree over its steps.
use realtime_data_center.Base.{ℕ, ◌≡◌, refl, List, [], ◌∷◌, Option, none, some, Bytes}
use realtime_data_center.Base.Int.{ℤ}
use realtime_data_center.Path.RoundTrip.{input_from_string-IsParsed}
use realtime_data_center.Value.{Value}
use realtime_data_center.Visitor.{VisitorW, set_visitor}
use realtime_data_center.Json.{Outcome, ok, err, panic, write}
use realtime_data_center.Json.Shape.{SameShape, SameShape-refl, SameShape-trans, write-SameShape}
use realtime_data_center.Control.{VisitorsControl, WriteRequest, new_visitors_control}
use realtime_data_center.Control.Serve.{
  Around, Event, write_event, read_event, register_event, idle, after_write, answer_write,
  serve_write, serve_read, serve_register, round,
}
use realtime_data_center.Control.Calls.{start_read}
use realtime_data_center.Control.Steps.{Step, serve, ask, take, measure, step, steps}

-- The tree of the state has the shape of this one, unless the program has ended.
abbrev pub KeepsShape : Value → Option VisitorsControl → Type 0
KeepsShape json none = Unit {0}
KeepsShape json (some c) = SameShape json c.json

module _ (float_text : ℕ → Bytes) where
  answer_write-KeepsShape :
      (env : Around) (rec : WriteRequest) (c : VisitorsControl) (o : Outcome Value)
      → ((v : Value) → o ≡ ok v → SameShape c.json v)
      → KeepsShape c.json
          (elim (answer_write float_text env rec c o) [ none ↦ none | some (c', e) ↦ some c' ])
  unfolding answer_write after_write
  answer_write-KeepsShape env rec c (ok json) h = h json refl
  answer_write-KeepsShape env rec c (err e) h = SameShape-refl c.json
  answer_write-KeepsShape env rec c panic h = tt

  round-KeepsShape : (e : Event) (c : VisitorsControl) → KeepsShape c.json (round float_text e c)
  unfolding round serve_write serve_read serve_register
  round-KeepsShape (write_event env rec) c =
      let a : VisitorW = record {
        basic = set_visitor rec.visitor_name rec.road;
        payload = rec.payload;
      } in
      answer_write-KeepsShape env rec c (write c.json a)
        (λ v e. write-SameShape c.json v a (input_from_string-IsParsed rec.road) e)
  round-KeepsShape (read_event env rec) c = SameShape-refl c.json
  round-KeepsShape (register_event env rec) c = SameShape-refl c.json
  round-KeepsShape idle c = SameShape-refl c.json

  step-KeepsShape : (s : Step) (c : VisitorsControl) → KeepsShape c.json (step float_text s c)
  unfolding step start_read
  step-KeepsShape (serve e) c = round-KeepsShape e c
  step-KeepsShape (ask name road) c = SameShape-refl c.json
  step-KeepsShape (take expired name road) c = SameShape-refl c.json
  step-KeepsShape (measure cost hour) c = SameShape-refl c.json

  steps_from :
      (json : Value) (ss : List Step) (c : VisitorsControl)
      → SameShape json c.json
      → KeepsShape json (steps float_text ss c)
  unfolding steps
  steps_from json [] c h = h
  steps_from json (s ∷ ss) c h =
      go (step float_text s c) (step-KeepsShape s c)
        (λ c' k. steps_from json ss c' (SameShape-trans json c.json c'.json h k))
    where
      go :
          (next : Option VisitorsControl)
          → KeepsShape c.json next
          → ((c' : VisitorsControl)
              → SameShape c.json c'.json
              → KeepsShape json (steps float_text ss c'))
          → KeepsShape json (elim next [ none ↦ none | some c' ↦ steps float_text ss c' ])
      go none k rest = tt
      go (some c') k rest = rest c' k

  -- In whatever order the kernel serves requests and readers ask for their listeners, take results and
  -- record their times, as long as the program has not ended by a panic: the tree that the kernel
  -- started with keeps its shape at the top. A map keeps its keys, and each key its dynamic type; a
  -- slice keeps its length; a leaf stays as it is.
  pub steps-KeepsShape :
      (now : ℤ) (json : Value) (ss : List Step)
      → KeepsShape json (steps float_text ss (new_visitors_control now json))
  unfolding new_visitors_control
  steps-KeepsShape now json ss = steps_from json ss _ (SameShape-refl json)

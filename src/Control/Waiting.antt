-- ===== src/Control/Waiting.antt =====
-- component/visitorsControl.go: what a reader that waits on its buffer gets.
use realtime_data_center.Base.{
  ℕ, ◌≡◌, refl, sym, ap, subst, ◌∙◌, inl, inr, Bool-cases, Bool, true, false, ◌⊎◌, List, [], ◌∷◌,
  some, if◌then◌else◌, Bytes, bytes_eq, lookup, insert, lookup-insert,
}
use realtime_data_center.Base.Int.{pos, add64, sub64}
use realtime_data_center.Affect.{LongPollReadControl}
use realtime_data_center.Performance.{KernalPerformance, add}
use realtime_data_center.Visitor.{
  ReadBufferResult, VisitorRwaitAndBuffer, visitor_string, set_visitor, set_result, is_nil_result,
  nil_key, nil_visitor, take_oldest, read_one, default_read_buffer_result,
}
use realtime_data_center.Json.{read}
use realtime_data_center.Control.{LongPollReadControl, VisitorsControl}
use realtime_data_center.Control.Serve.{serve_read}
use realtime_data_center.Control.Calls.{Wait, read_quickly, after_read, finish_with, finish_read}

-- What `ReadQuickly` gives to a reader.
abbrev pub found_now : (ℕ → Bytes) → Wait → Bytes → Bytes → VisitorsControl → Bytes
found_now float_text env name road c =
    if env.accepted
    then if env.around.taken then read float_text c.json (set_visitor name road) else nil_key
    else nil_key

-- The statistics with this read of a buffer recorded.
abbrev pub measured : Wait → KernalPerformance → KernalPerformance
measured env p = record p {
  long_poll_read_performance =
      add p.long_poll_read_performance (pos 1) (sub64 env.finish env.start) env.hour;
}

module _ (float_text : ℕ → Bytes) (env : Wait) (name road : Bytes) where
  read_quickly_lem :
      (c : VisitorsControl)
      → let r = read_quickly float_text env.accepted env.around name road c in
        (r.0.json ≡ c.json)
        × (r.0.wait_with_timeout ≡ c.wait_with_timeout)
        × (r.1 ≡ found_now float_text env name road c)
  unfolding read_quickly serve_read
  read_quickly_lem c = elim (Bool-cases env.accepted) [
    | inl e ↦ rw (e, read_quickly) (refl, refl, refl)
    | inr e ↦ rw (e, read_quickly) (refl, refl, refl)
  ]

  -- The statistics of a read do not depend on the table.
  performance-read_quickly :
      (c : VisitorsControl) (table : LongPollReadControl)
      → (read_quickly float_text env.accepted env.around name road
          (record c { wait_with_timeout = table })).0.performance
        ≡ (read_quickly float_text env.accepted env.around name road c).0.performance
  unfolding read_quickly serve_read
  performance-read_quickly c table = elim (Bool-cases env.accepted) [
    | inl e ↦ rw (e, read_quickly)
    | inr e ↦ rw (e, read_quickly)
  ]

  after_read_lem :
      (c : VisitorsControl) (result : ReadBufferResult)
      → let r = after_read float_text env name road result c in
        (r.0.json ≡ c.json)
        × (r.0.wait_with_timeout ≡ c.wait_with_timeout)
        × (r.1 ≡ (
            if is_nil_result result.result
            then set_result nil_visitor (found_now float_text env name road c) env.now
            else result))
  unfolding after_read
  after_read_lem c result =
      let (json, table, found) = read_quickly_lem c in
      elim (Bool-cases (is_nil_result result.result)) [
        | inl e ↦ rw (e, after_read) (json, table, ap (λ f. set_result nil_visitor f env.now) found)
        | inr e ↦ rw (e, after_read) (refl, refl, refl)
      ]

  -- What a read ends with that leaves the listener as `v'` and takes `result` from its buffer.
  abbrev Ends :
      VisitorsControl
      → Bytes
      → VisitorsControl × ReadBufferResult
      → VisitorRwaitAndBuffer × ReadBufferResult
      → Type 0
  Ends c k r (v', result) =
      (r.0.json ≡ c.json)
      × (lookup k r.0.wait_with_timeout ≡ (
          if bytes_eq (visitor_string (set_visitor name road)) k
          then some v'
          else lookup k c.wait_with_timeout))
      × (r.1 ≡ (
          if is_nil_result result.result
          then set_result nil_visitor (found_now float_text env name road c) env.now
          else result))
      × (r.0.performance
          ≡ measured env (
              if is_nil_result result.result
              then (read_quickly float_text env.accepted env.around name road c).0.performance
              else c.performance))

  performance-finish_with :
      (c : VisitorsControl) (v : VisitorRwaitAndBuffer)
      → (finish_with float_text env name road (some v) c).0.performance
        ≡ measured env (
            if is_nil_result (read_one env.expired v).1.result
            then (read_quickly float_text env.accepted env.around name road c).0.performance
            else c.performance)
  unfolding finish_with after_read
  performance-finish_with c v =
      elim (Bool-cases (is_nil_result (read_one env.expired v).1.result)) [
        | inl e ↦ rw (e, after_read) (ap (measured env) (performance-read_quickly c _))
        | inr e ↦ rw (e, after_read) refl
      ]

  finish_with-Ends :
      (c : VisitorsControl) (v : VisitorRwaitAndBuffer) (k : Bytes)
      → Ends c k (finish_with float_text env name road (some v) c) (read_one env.expired v)
  unfolding finish_with
  finish_with-Ends c v k =
      let key = visitor_string (set_visitor name road) in
      let (v', result) = read_one env.expired v in
      let (json, table, found) =
        after_read_lem (record c { wait_with_timeout = insert key v' c.wait_with_timeout })
          result in
      (
        json,
        ap (lookup k) table ∙ lookup-insert key k v' c.wait_with_timeout,
        found,
        performance-finish_with c v,
      )

  finish_read-Ends :
      (c : VisitorsControl) (v : VisitorRwaitAndBuffer) (k : Bytes)
      {p : VisitorRwaitAndBuffer × ReadBufferResult}
      → lookup (visitor_string (set_visitor name road)) c.wait_with_timeout ≡ some v
      → read_one env.expired v ≡ p
      → Ends c k (finish_read float_text env name road c) p
  unfolding finish_read
  finish_read-Ends c v k h e = subst (Ends c k (finish_read float_text env name road c)) e (
      subst (λ o. Ends c k (finish_with float_text env name road o c) (read_one env.expired v))
        (sym h) (finish_with-Ends c v k))

read_one_oldest :
    (expired : Bool) (v : VisitorRwaitAndBuffer) (a : ReadBufferResult)
    (rest : List ReadBufferResult)
    → expired ≡ false
    → v.buffer ≡ a ∷ rest
    → read_one expired v ≡ (record v { read_num = add64 v.read_num (pos 1); buffer = rest }, a)
unfolding read_one take_oldest
read_one_oldest expired v a rest e b = rw (e, b) refl

read_one_nothing :
    (expired : Bool) (v : VisitorRwaitAndBuffer)
    → (expired ≡ true) ⊎ (v.buffer ≡ [])
    → read_one expired v
      ≡ (record v { read_num = add64 v.read_num (pos 1) }, default_read_buffer_result)
unfolding read_one take_oldest
read_one_nothing true v h = refl
read_one_nothing false v (inl e) = cc
read_one_nothing false v (inr b) = rw b refl

-- A reader whose listener is in the table, once its wait is over. If its time did not run out first and
-- its buffer holds a result with a text, it gets the oldest one, which leaves the buffer; the others
-- stay. If its buffer is empty or its time ran out, it gets what the tree holds at its path now, under no
-- writer's name, or nothing if the kernel does not answer in time, and the buffer stays. In both cases
-- the listener counts the read, no other listener changes and the tree does not, and the statistics get
-- the time of the read, beside what they get of the read of the tree in the second case.
pub finish_read_lem :
    (float_text : ℕ → Bytes) (env : Wait) (name road k : Bytes) (c : VisitorsControl)
    (v : VisitorRwaitAndBuffer)
    → lookup (visitor_string (set_visitor name road)) c.wait_with_timeout ≡ some v
    → let key = visitor_string (set_visitor name road) in
      let r = finish_read float_text env name road c in
      let counted = add64 v.read_num (pos 1) in
      (r.0.json ≡ c.json)
      × ((a : ReadBufferResult) (rest : List ReadBufferResult)
          → env.expired ≡ false
          → v.buffer ≡ a ∷ rest
          → is_nil_result a.result ≡ false
          → (r.1 ≡ a)
            × (lookup k r.0.wait_with_timeout ≡ (
                if bytes_eq key k
                then some (record v { read_num = counted; buffer = rest })
                else lookup k c.wait_with_timeout))
            × (r.0.performance ≡ measured env c.performance))
      × ((env.expired ≡ true) ⊎ (v.buffer ≡ [])
          → (r.1 ≡ set_result nil_visitor (found_now float_text env name road c) env.now)
            × (lookup k r.0.wait_with_timeout ≡ (
                if bytes_eq key k
                then some (record v { read_num = counted })
                else lookup k c.wait_with_timeout))
            × (r.0.performance
                ≡ measured env
                    (read_quickly float_text env.accepted env.around name road c).0.performance))
unfolding bytes_eq
finish_read_lem float_text env name road k c v h = (
  (finish_read-Ends float_text env name road c v k h refl).0,
  (λ a rest e b n.
      let (_, table, found, spent) =
        finish_read-Ends float_text env name road c v k h
          (read_one_oldest env.expired v a rest e b) in
      (found ∙ rw n, table, spent ∙ ap (measured env) (rw n refl))),
  λ o.
      let (_, table, found, spent) =
        finish_read-Ends float_text env name road c v k h (read_one_nothing env.expired v o) in
      (found, table, spent),
)

-- ===== src/Simulation/WriteBack.antt =====
-- clientSimulation/main.go over the kernel: what the simulation's writes come to.
use realtime_data_center.Base.{
  ℕ, ◌+◌, ◌≡◌, ◌≢◌, refl, ap, ◌∙◌, true, false, List, [], ◌∷◌, Option, none, some, Bytes, All, map,
  arith, length,
}
use realtime_data_center.Path.{input_from_string}
use realtime_data_center.Path.RoundTrip.{input_from_string-IsParsed}
use realtime_data_center.Value.{Value, Fields, object, is_nil}
use realtime_data_center.Value.Marshal.{marshal}
use realtime_data_center.Value.Marshal.Canonical.{IsCanonical}
use realtime_data_center.Json.{ok, find, write}
use realtime_data_center.Json.Canonical.{find-IsCanonical}
use realtime_data_center.Json.Descent.{Exists}
use realtime_data_center.Json.Listing.{WellKeyed}
use realtime_data_center.Json.WriteBack.{write-find_self}
use realtime_data_center.Golib.Reading.{IsPlain}
use realtime_data_center.Messages.{ReturnBase}
use realtime_data_center.Control.{VisitorsControl, WriteRequest}
use realtime_data_center.Control.Serve.{after_write, serve_write}
use realtime_data_center.Control.Calls.{write_quickly}
use realtime_data_center.Control.Errors.{write_error}
use realtime_data_center.Api.Kernel.{Call, kernel_api, write_outcome}
use realtime_data_center.Server.{Handler, Poll}
use realtime_data_center.Server.Exchange.{ok_answer}
use realtime_data_center.Server.Notification.{visitor_of}
use realtime_data_center.Client
use realtime_data_center.Client.{ClientHandle, Exchange, returned, failed}
use realtime_data_center.Client.Calls.{server_request, write_data-write_quickly}
use realtime_data_center.Simulation.{
  Counts, Notices, Run, fatal, ended, finished, add_answer, write_all,
}
use realtime_data_center.Simulation.Notices.{
  Counted, Counted-ext, Counted-zero, IsNews, times, count_all_lem, heard, sent,
}

-- A path that is written as it is read, and at which something is.
abbrev pub IsWritable : Fields → Bytes → Type 0
IsWritable fs path = IsPlain path × (is_nil (find (object fs) (input_from_string path)) ≡ false)

-- The writes are over: the kernel's tree is the map and the polls are as they were, each of all paths has
-- a counter, which counts what came of it beside what `f` says, and each write was answered by success.
abbrev pub IsWritten :
    (Bytes → Option ℕ)
    → (Bytes → Notices)
    → Fields
    → List Bytes
    → List Bytes
    → List Poll
    → (Bytes → ℕ)
    → ℕ
    → Run (ℕ × Handler VisitorsControl)
    → Type 0
IsWritten parse_float news fs whole paths polls f total (fatal reason) = ⊥
IsWritten parse_float news fs whole paths polls f total ended = ⊥
IsWritten parse_float news fs whole paths polls f total (finished (n, h) counts answers) =
    (h.control.json ≡ object fs)
    × (h.polls ≡ polls)
    × Counted whole (λ p. heard parse_float news p paths + f p) counts
    × (counts.total_read ≡ total + sent parse_float news paths)
    × (answers ≡ map (λ _. ok_answer) paths)

module _ (float_text : ℕ → Bytes) (parse_float : Bytes → Option ℕ) (show : VisitorsControl → Bytes)
    (server_error : ℕ → Bytes → Bytes) (calls : ℕ → Call) where
  -- A client's requests to the kernel, one after another; what the `n`th of them meets is `calls n`.
  -- The handlers of the two connections are one here: a handler keeps only its polls and its flag.
  unfoldable pub kernel_request :
      ℕ → Bytes → ℕ × Handler VisitorsControl → (ℕ × Handler VisitorsControl) × Exchange
  unfolding server_request
  kernel_request cmd payload (n, h) =
      let (h', outcome) =
        server_request (kernel_api float_text show (calls n)) parse_float server_error cmd payload
          h in
      ((n + 1, h'), outcome)

  -- Whatever the calls meet, the kernel accepts them and their answers are taken.
  abbrev pub AllServed : Type 0
  AllServed = (n : ℕ) → ((calls n).accepted ≡ true) × ((calls n).around.taken ≡ true)

  kernel-write_quickly :
      (n : ℕ) (name road : Bytes) (payload json : Value) (c : VisitorsControl)
      → AllServed
      → write c.json (
          visitor_of
            (record { basic = record { visitor_name = name; road = road }; payload = payload }))
        ≡ ok json
      → (kernel_api float_text show (calls n)).write_quickly name road payload c
        ≡ some (
          after_write float_text
              (calls n).around
              (record { basic = record { visitor_name = name; road = road }; payload = payload })
              json
              c,
          none,
        )
  unfolding kernel_api write_quickly serve_write write_outcome write_error
  kernel-write_quickly n name road payload json c all e =
      rw ((all n).0, e, serve_write, (all n).1) refl

  module _ (json_error : Bytes → Bytes) (client : ClientHandle) (on : client.connected ≡ true) where
    write_data-kernel_request :
        (path x : Bytes) (n : ℕ) (h h' : Handler VisitorsControl) (ret : ReturnBase)
        → Client.write_data parse_float json_error
            (server_request (kernel_api float_text show (calls n)) parse_float server_error)
            client
            path
            (returned x)
            h
          ≡ (h', ret)
        → Client.write_data parse_float json_error kernel_request client path (returned x) (n, h)
          ≡ ((n + 1, h'), ret)
    unfolding Client.write_data kernel_request
    write_data-kernel_request path x n h h' ret e =
        rw on (ap (λ (r : Handler VisitorsControl × ReturnBase). ((n + 1, r.0), r.1)) (rw on at e))

    module _ (all : AllServed) (number : (n : ℕ) → float_text n ≢ [])
        (plain : IsPlain client.visitor_name) (fs : Fields) (keys : WellKeyed (object fs))
        (canonical : IsCanonical float_text parse_float (object fs)) where
      write_one :
          (path : Bytes) (n : ℕ) (h : Handler VisitorsControl)
          → h.control.json ≡ object fs
          → Exists (object fs) (input_from_string path)
          → IsWritable fs path
          → (h' : Handler VisitorsControl) × (Client.write_data parse_float json_error
                kernel_request client path
                (returned (marshal float_text (find (object fs) (input_from_string path))))
                (n, h)
              ≡ ((n + 1, h'), ok_answer))
            × (h'.control.json ≡ object fs)
            × (h'.polls ≡ h.polls)
      unfolding after_write
      write_one path n h same there (hp, full) =
          let v = find (object fs) (input_from_string path) in
          let rec : WriteRequest = record {
            basic = record { visitor_name = client.visitor_name; road = path };
            payload = v;
          } in
          let kept : write h.control.json (visitor_of rec) ≡ ok (object fs) =
            ap (λ t. write t (visitor_of rec)) same
            ∙ write-find_self fs (visitor_of rec) keys (input_from_string-IsParsed path) there
                refl in
          let c' = after_write float_text (calls n).around rec (object fs) h.control in
          (
            record h { control = c' },
            write_data-kernel_request path (marshal float_text v) n h (record h { control = c' })
                ok_answer
                (write_data-write_quickly float_text parse_float server_error json_error
                  (kernel_api float_text show (calls n)) client path v h c' none on number hp plain
                  (find-IsCanonical float_text parse_float (input_from_string path) (object fs)
                    canonical)
                  tt
                  (kernel-write_quickly n client.visitor_name path v (object fs) h.control all
                    kept)),
            refl,
            refl,
          )

      -- The simulation's writes to paths at which the tree holds something.
      pub write_all-IsWritten :
          (news : Bytes → Notices) (whole paths : List Bytes) (n : ℕ) (h : Handler VisitorsControl)
          (f : Bytes → ℕ) (counts : Counts)
          → h.control.json ≡ object fs
          → All (λ p. Exists (object fs) (input_from_string p)) paths
          → All (IsWritable fs) paths
          → ((p : Bytes) → All (IsNews parse_float whole) (news p))
          → Counted whole f counts
          → IsWritten parse_float news fs whole paths h.polls f counts.total_read (
              write_all float_text parse_float json_error kernel_request news client
                (object fs)
                paths
                (n, h)
                counts)
      unfolding write_all
      write_all-IsWritten news whole [] n h f counts same there ok_paths ok_news counted =
          (same, refl, Counted-zero whole f counts counted, omega arith, refl)
      write_all-IsWritten news whole (p ∷ paths) n h f counts same (e, es) (w, ws) ok_news counted =
          let (h', done, same', kept) = write_one p n h same e w in
          let (counts', all_counted, counted', more) =
            count_all_lem parse_float json_error whole (news p) f counts counted (ok_news p) in
          rw (w.1, all_counted, write_all, done)
            (go h'.polls kept counts'.total_read more _ (
              write_all-IsWritten news whole paths (n + 1) h'
                (λ q. times parse_float q (news p) + f q) counts' same' es ws ok_news counted'))
        where
          shuffle : (a b c : ℕ) → b + (a + c) ≡ a + b + c
          shuffle a b c = omega arith

          go :
              (polls : List Poll)
              → polls ≡ h.polls
              → (total : ℕ) → total ≡ counts.total_read + length (news p)
              → (r : Run (ℕ × Handler VisitorsControl))
              → IsWritten parse_float news fs whole paths polls
                  (λ q. times parse_float q (news p) + f q)
                  total
                  r
              → IsWritten parse_float news fs whole
                  (p ∷ paths)
                  h.polls
                  f
                  counts.total_read
                  (add_answer ok_answer r)
          go polls kept total more (finished (m, k) counts' answers) (a, b, c, t, d) = (
            a,
            b ∙ kept,
            Counted-ext whole _ _ counts'
                (λ q. shuffle (times parse_float q (news p)) (heard parse_float news q paths) (f q))
                c,
            omega (arith, t, more),
            ap (λ l. ok_answer ∷ l) d,
          )
          go polls kept total more (fatal reason) u = u
          go polls kept total more ended u = u

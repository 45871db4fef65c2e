-- ===== src/Simulation/Whole.antt =====
-- clientSimulation/main.go over the kernel: the whole simulation.
use realtime_data_center.Base.{
  ◌∷◌, inl, inr, ℕ, ◌+◌, ◌≡◌, ◌≢◌, refl, sym, ap, subst, ◌∙◌, true, false, List, [], Option, some,
  Bytes, utf8, bytes_eq, All, map, lookup, if◌then◌else◌, arith,
}
use realtime_data_center.Path.{iter, input_from_string}
use realtime_data_center.Value.{Value, Fields, object}
use realtime_data_center.Value.Marshal.Canonical.{IsCanonical}
use realtime_data_center.Golib.Strings.{split}
use realtime_data_center.Golib.Unquote.{valid_fuel}
use realtime_data_center.Golib.Reading.{IsPlain}
use realtime_data_center.Json.{find}
use realtime_data_center.Json.Nodes.{iter_all_path}
use realtime_data_center.Json.Listing.{WellKeyed, iter_all_path-Exists}
use realtime_data_center.Control.{VisitorsControl}
use realtime_data_center.Api.Kernel.{Call}
use realtime_data_center.Messages.{ReturnWithJsonPayload, success}
use realtime_data_center.Server.{Handler, Poll}
use realtime_data_center.Server.Exchange.{ok_answer}
use realtime_data_center.Client.{ClientHandle, connected_now, start_connect}
use realtime_data_center.Link.Duplex.Members.{Sub, All-In}
use realtime_data_center.Simulation.{
  is_nil, Counts, no_counts, Notices, Run, fatal, ended, finished, register_all, write_all,
  simulate,
}
use realtime_data_center.Simulation.Notices.{Counted, Counted-ext, IsNews, heard, sent}
use realtime_data_center.Simulation.WriteBack.{
  kernel_request, AllServed, IsWritable, IsWritten, write_all-IsWritten,
}
use realtime_data_center.Simulation.Registration.{
  started, counters, lookup-counters, total_read-counters, IsRegistered, polls-IsRegistered,
  register_all-IsRegistered,
}
use realtime_data_center.Simulation.Requests.{unblock_read-kernel_request}

-- The simulation is over: the kernel's tree is the map, each path has a poll and a counter, which has
-- counted the notifications about it, all of them are counted in the total, and each write was answered
-- by success.
abbrev pub IsDone :
    (Bytes → Option ℕ)
    → (Bytes → Notices)
    → Fields
    → List Bytes
    → List Poll
    → Run (ℕ × Handler VisitorsControl)
    → Type 0
IsDone parse_float news fs paths polls (fatal reason) = ⊥
IsDone parse_float news fs paths polls ended = ⊥
IsDone parse_float news fs paths polls (finished (n, h) counts answers) =
    (h.control.json ≡ object fs)
    × (h.polls ≡ started (utf8 "socket read") paths polls)
    × Counted paths (λ p. heard parse_float news p paths) counts
    × (counts.total_read ≡ sent parse_float news paths)
    × (answers ≡ map (λ _. ok_answer) paths)

All-Sub : (P : Bytes → Type 0) (xs ys : List Bytes) → All P xs → Sub ys xs → All P ys
All-Sub P xs [] a sub = tt
All-Sub P xs (y ∷ ys) a sub =
    (All-In P xs y a (sub y (inl refl)), All-Sub P xs ys a (λ x m. sub x (inr m)))

zero_Counted : (paths : List Bytes) → Counted paths (λ p. 0) (counters paths no_counts)
zero_Counted paths p m =
    All-In (λ q. lookup q (counters paths no_counts).by_path ≡ some 0) paths p
      (lookup-counters paths no_counts) m

find_root : (v : Value) → find v (input_from_string []) ≡ v
unfolding find iter input_from_string split
find_root v = refl

writer_IsPlain : IsPlain (utf8 "socket write")
unfolding valid_fuel
writer_IsPlain = (omega arith, refl)

reader_IsPlain : IsPlain (utf8 "socket read")
unfolding valid_fuel
reader_IsPlain = (omega arith, refl)

-- The two sockets, once they stand.
abbrev write_socket : ClientHandle
write_socket = record {
  visitor_name = utf8 "socket write";
  auto_reconnect = false;
  quit = false;
  connected = true;
  connection = true;
}

abbrev read_socket : ClientHandle
read_socket = record write_socket { visitor_name = utf8 "socket read" }

module _ (float_text : ℕ → Bytes) (parse_float : Bytes → Option ℕ) (show : VisitorsControl → Bytes)
    (server_error : ℕ → Bytes → Bytes) (calls : ℕ → Call)
    (all : AllServed float_text parse_float show server_error calls) (json_error : Bytes → Bytes)
    (number : (n : ℕ) → float_text n ≢ []) (fs : Fields) (keys : WellKeyed (object fs))
    (canonical : IsCanonical float_text parse_float (object fs)) (paths : List Bytes)
    (listed : Sub paths (iter_all_path [] (object fs))) (news : Bytes → Notices)
    (ok_news : (p : Bytes) → All (IsNews parse_float paths) (news p)) where
  write_all-IsDone :
      (polls : List Poll) (r : Run (ℕ × Handler VisitorsControl))
      → All (IsWritable fs) paths
      → IsRegistered fs (started (utf8 "socket read") paths polls) (counters paths no_counts) r
      → IsDone parse_float news fs paths polls (elim r [
        | fatal reason ↦ fatal reason
        | ended ↦ ended
        | finished t counts _ ↦
            write_all float_text parse_float json_error
              (kernel_request float_text parse_float show server_error calls)
              news
              write_socket
              (object fs)
              paths
              t
              counts
      ])
  write_all-IsDone polls (fatal reason) ok_paths u = u
  write_all-IsDone polls ended ok_paths u = u
  write_all-IsDone polls (finished (n, h) counts answers) ok_paths (same, opened, zeros) = go _ (
      write_all-IsWritten float_text parse_float show server_error calls json_error write_socket
        refl all number writer_IsPlain fs keys canonical news paths paths n h (λ p. 0) counts same
        (All-Sub _ (iter_all_path [] (object fs)) paths (iter_all_path-Exists (object fs) keys)
          listed)
        ok_paths ok_news (subst (Counted paths (λ p. 0)) (sym zeros) (zero_Counted paths)))
    where
      none_yet : counts.total_read ≡ 0
      none_yet = ap (λ (x : Counts). x.total_read) zeros ∙ total_read-counters paths no_counts

      go :
          (r : Run (ℕ × Handler VisitorsControl))
          → IsWritten parse_float news fs paths paths h.polls (λ p. 0) counts.total_read r
          → IsDone parse_float news fs paths polls r
      go (fatal reason) u = u
      go ended u = u
      go (finished (m, k) counts' answers) (a, b, c, t, d) = (
        a,
        b ∙ opened,
        Counted-ext paths _ _ counts'
            (λ p.
              let z : heard parse_float news p paths + 0 ≡ heard parse_float news p paths =
                omega arith in
              z)
            c,
        omega (arith, t, none_yet),
        d,
      )

-- The whole simulation, where its sockets connect, the kernel's tree is a well-keyed map in canonical
-- form that holds no nil at the paths that IterAllPath lists from its root, those are plain, every
-- request is accepted and its answer taken, and what comes to the callback are notifications about
-- listed paths, none of them before the first write: in whatever order the ranges over maps list the
-- paths, it reads the whole tree, at each listed path a poll starts, every write is answered by success,
-- the tree is as before, the counter of each path has counted the notifications about it, and the total
-- has counted all.
pub simulate_lem :
    (float_text : ℕ → Bytes) (parse_float : Bytes → Option ℕ) (show : VisitorsControl → Bytes)
    (server_error : ℕ → Bytes → Bytes) (calls : ℕ → Call) (json_error : Bytes → Bytes) (fs : Fields)
    (order : List Bytes → List Bytes) (news : Bytes → Notices) (n : ℕ) (h : Handler VisitorsControl)
    → AllServed float_text parse_float show server_error calls
    → ((n : ℕ) → float_text n ≢ [])
    → WellKeyed (object fs)
    → IsCanonical float_text parse_float (object fs)
    → ((paths : List Bytes) → Sub (order paths) paths × Sub paths (order paths))
    → ((p : Bytes) → All (IsNews parse_float (order (iter_all_path [] (object fs)))) (news p))
    → h.control.json ≡ object fs
    → All (IsWritable fs) (iter_all_path [] (object fs))
    → IsDone parse_float news fs (order (iter_all_path [] (object fs))) h.polls (
        simulate float_text parse_float json_error
          (kernel_request float_text parse_float show server_error calls)
          order
          (λ p. [])
          news
          connected_now
          connected_now
          (n, h))
unfolding simulate start_connect bytes_eq valid_fuel
simulate_lem float_text parse_float show server_error calls json_error fs order news n h all number
      keys canonical orders ok_news same ok_listed =
    let listed = iter_all_path [] (object fs) in
    let paths = order listed in
    let ok_paths = All-Sub _ listed paths ok_listed (orders listed).0 in
    let (h', done, same', polls) =
      unblock_read-kernel_request float_text parse_float show server_error calls all json_error
        write_socket refl number writer_IsPlain (object fs) canonical [] n h same (tt, refl)
        (ap is_nil (find_root (object fs))) in
    let after_read : (ℕ × Handler VisitorsControl) × ReturnWithJsonPayload
        → Run (ℕ × Handler VisitorsControl) =
      λ x.
        if success x.1.base
        then elim (register_all float_text parse_float json_error
            (kernel_request float_text parse_float show server_error calls) (λ p. []) read_socket
            (order (iter_all_path [] x.1.payload)) x.0 no_counts) [
              | fatal reason ↦ fatal reason
              | ended ↦ ended
              | finished t counts _ ↦
                  write_all float_text parse_float json_error
                    (kernel_request float_text parse_float show server_error calls) news
                    write_socket x.1.payload (order (iter_all_path [] x.1.payload)) t counts
            ]
        else fatal x.1.reason in
    let read_all =
      done
      ∙ ap
          (λ (v : Value).
            let ret : ReturnWithJsonPayload = record { base = ok_answer; payload = v } in
            ((n + 1, h'), ret))
          (find_root (object fs)) in
    subst (λ x. IsDone parse_float news fs paths h.polls (after_read x)) (sym read_all)
      (write_all-IsDone float_text parse_float show server_error calls all json_error number fs keys
        canonical paths (orders listed).0 news ok_news h.polls _ ok_paths
        (polls-IsRegistered fs _ _ (ap (started (utf8 "socket read") paths) polls) (
          register_all-IsRegistered float_text parse_float show server_error calls all json_error
            number fs keys canonical read_socket paths (n + 1) h' no_counts refl reader_IsPlain
            same' ok_paths)))

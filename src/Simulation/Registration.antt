-- ===== src/Simulation/Registration.antt =====
-- clientSimulation/main.go over the kernel: the loop that listens at every path.
use realtime_data_center.Base.{
  ℕ, ◌+◌, ◌≡◌, ◌≢◌, refl, ap, subst, ◌∙◌, inl, inr, true, List, [], ◌∷◌, Option, some, Bytes,
  bytes_eq, bytes_eq_iff, All, lookup, insert, lookup-insert, if◌then◌else◌, Bool-cases, arith,
}
use realtime_data_center.Base.Int.{pos}
use realtime_data_center.Value.{Fields, object}
use realtime_data_center.Value.Marshal.Canonical.{IsCanonical}
use realtime_data_center.Golib.Reading.{IsPlain}
use realtime_data_center.Json.Listing.{WellKeyed}
use realtime_data_center.Control.{VisitorsControl}
use realtime_data_center.Api.Kernel.{Call}
use realtime_data_center.Server.{Handler, Poll}
use realtime_data_center.Client.{ClientHandle}
use realtime_data_center.Simulation.{Counts, Run, fatal, ended, finished, count_all, register_all}
use realtime_data_center.Simulation.WriteBack.{kernel_request, AllServed, IsWritable}
use realtime_data_center.Simulation.Requests.{register_notify-kernel_request}

-- The polls of a client with this name at these paths, the last one first, before others.
abbrev pub started : Bytes → List Bytes → List Poll → List Poll
started name [] polls = polls
started name (p ∷ paths) polls =
    started name paths (record { visitor_name = name; road = p; timeout = pos 10 } ∷ polls)

-- Counters at zero for these paths, beside others.
abbrev pub counters : List Bytes → Counts → Counts
counters [] counts = counts
counters (p ∷ paths) counts = counters paths (record counts { by_path = insert p 0 counts.by_path })

lookup-counters_other :
    (k : Bytes) (paths : List Bytes) (counts : Counts)
    → lookup k counts.by_path ≡ some 0
    → lookup k (counters paths counts).by_path ≡ some 0
lookup-counters_other k [] counts h = h
lookup-counters_other k (p ∷ paths) counts h =
    lookup-counters_other k paths (record counts { by_path = insert p 0 counts.by_path })
      (lookup-insert p k 0 counts.by_path ∙ zero)
  where
    zero : (if bytes_eq p k then some 0 else lookup k counts.by_path) ≡ some 0
    zero = elim (Bool-cases (bytes_eq p k)) [ inl e ↦ rw e refl | inr e ↦ rw e h ]

pub lookup-counters :
    (paths : List Bytes) (counts : Counts)
    → All (λ p. lookup p (counters paths counts).by_path ≡ some 0) paths
lookup-counters [] counts = tt
lookup-counters (p ∷ paths) counts = (
  lookup-counters_other p paths (record counts { by_path = insert p 0 counts.by_path })
      (lookup-insert p p 0 counts.by_path ∙ rw ((bytes_eq_iff p p).1 refl) refl),
  lookup-counters paths (record counts { by_path = insert p 0 counts.by_path }),
)

pub total_read-counters :
    (paths : List Bytes) (counts : Counts) → (counters paths counts).total_read ≡ counts.total_read
total_read-counters [] counts = refl
total_read-counters (p ∷ paths) counts =
    total_read-counters paths (record counts { by_path = insert p 0 counts.by_path })

-- The registrations are over: the kernel's tree is the map, and each path has a poll and a counter.
abbrev pub IsRegistered : Fields → List Poll → Counts → Run (ℕ × Handler VisitorsControl) → Type 0
IsRegistered fs polls counts (fatal reason) = ⊥
IsRegistered fs polls counts ended = ⊥
IsRegistered fs polls counts (finished (n, h) counts' answers) =
    (h.control.json ≡ object fs) × (h.polls ≡ polls) × (counts' ≡ counts)

pub polls-IsRegistered :
    (fs : Fields) (counts : Counts) (r : Run (ℕ × Handler VisitorsControl))
    {polls polls' : List Poll}
    → polls ≡ polls'
    → IsRegistered fs polls counts r
    → IsRegistered fs polls' counts r
polls-IsRegistered fs counts r e = subst (λ ps. IsRegistered fs ps counts r) e

module _ (float_text : ℕ → Bytes) (parse_float : Bytes → Option ℕ) (show : VisitorsControl → Bytes)
    (server_error : ℕ → Bytes → Bytes) (calls : ℕ → Call)
    (all : AllServed float_text parse_float show server_error calls) (json_error : Bytes → Bytes)
    (number : (n : ℕ) → float_text n ≢ []) (fs : Fields) (keys : WellKeyed (object fs))
    (canonical : IsCanonical float_text parse_float (object fs)) where
  pub register_all-IsRegistered :
      (client : ClientHandle) (paths : List Bytes) (n : ℕ) (h : Handler VisitorsControl)
      (counts : Counts)
      → client.connected ≡ true
      → IsPlain client.visitor_name
      → h.control.json ≡ object fs
      → All (IsWritable fs) paths
      → IsRegistered fs (started client.visitor_name paths h.polls) (counters paths counts) (
          register_all float_text parse_float json_error
            (kernel_request float_text parse_float show server_error calls)
            (λ p. [])
            client
            paths
            (n, h)
            counts)
  unfolding register_all count_all bytes_eq
  register_all-IsRegistered client [] n h counts on plain same ok_paths = (same, refl, refl)
  register_all-IsRegistered client (p ∷ paths) n h counts on plain same (w, ws) =
      let (h', done, same', polls) =
        register_notify-kernel_request float_text parse_float show server_error calls all json_error
          client on number plain (object fs) canonical p (pos 10) n h same w.0 (omega arith) w.1 in
      rw (done, register_all)
        (polls-IsRegistered fs _ _ (ap (started client.visitor_name paths) polls) (
          register_all-IsRegistered client paths (n + 1) h'
            (record counts { by_path = insert p 0 counts.by_path }) on plain same' ws))

-- ===== src/Api.antt =====
-- component/visitorsControl.go: the interfaces ControlRead and ControlWrite, by which the socket and the REST
-- handlers reach the kernel.
pub mod Kernel
use realtime_data_center.Base.{ℕ, Option, none, some, Bytes, ◌≡◌, ◌≢◌, [], ◌++◌}
use realtime_data_center.Path.{NodePath, input_from_string}
use realtime_data_center.Json.{read}
use realtime_data_center.Base.Int.{ℤ}
use realtime_data_center.Value.{Value}
use realtime_data_center.Visitor.{ReadResult, ReadBufferResult}

-- What can be asked of a state `S`: each operation gives the state after it, or `none` once the
-- program has ended. What `PerformanceShow` prints leaves the state as it is.
pub record ControlApi (S : Type 0) : Type 0 where
  pub read_quickly : Bytes → Bytes → S → Option (S × ReadResult)
  pub read_with_time : Bytes → Bytes → ℤ → S → Option (S × ReadBufferResult)
  pub read_buffer : Bytes → Bytes → ℤ → S → Option (S × ReadBufferResult)
  pub register_notify : Bytes → Bytes → ℤ → S → Option (S × ReadResult)
  pub performance_show : S → Bytes
  pub write_quickly : Bytes → Bytes → Value → S → Option (S × Option Bytes)

-- Reads by `api'` after a write by `api` that reports no error, at the written path or below it: they
-- give the text of what the written value holds there.
abbrev pub ReadsBack : {S : Type 0} → (ℕ → Bytes) → ControlApi S → ControlApi S → Type 0
ReadsBack {S} float_text api api' =
    (writer reader road below : Bytes) (payload : Value) (c c' : S) (q : NodePath)
    → input_from_string road ≢ []
    → input_from_string below ≡ input_from_string road ++ q
    → api.write_quickly writer road payload c ≡ some (c', none)
    → (c'' : S) × (api'.read_quickly reader below c'
        ≡ some (c'', read float_text payload (record { path = q; name = reader })))

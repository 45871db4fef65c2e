-- ===== src/Control.antt =====
-- component/visitorsControl.go: the kernel, which owns the tree and serves one request after another,
-- and the calls by which clients send it requests. A request's handling is one step: what other
-- goroutines do meanwhile, and what the clocks show, comes in as an argument.
pub mod Notify
pub mod Serve
pub mod Calls
pub mod Errors
pub mod Delivery
pub mod Listeners
pub mod Safety
pub mod Requests
pub mod Waiting
pub mod Steps
pub mod Shape
pub mod Updates
use realtime_data_center.Base.{ℕ, ◌≡◌, refl, List, [], ◌∷◌, ◌++◌, Bytes, utf8, decimal, ◌+◌}
use realtime_data_center.Base.Int.{ℤ, pos, negsuc}
use realtime_data_center.Value.{Value}
use realtime_data_center.Visitor.{VisitorBasicType, set_visitor}
use realtime_data_center.Affect.{LongPollReadControl}
use realtime_data_center.Performance.{KernalPerformance, get_kernal_performance}

pub record VisitorsControl : Type 0 where
  pub json : Value
  pub wait_with_timeout : LongPollReadControl
  pub performance : KernalPerformance

-- `NewVisitorsControl`, at the time `now`.
unfoldable pub new_visitors_control : ℤ → Value → VisitorsControl
new_visitors_control now json = record {
  json = json;
  wait_with_timeout = [];
  performance = get_kernal_performance now;
}

pub record BasicRequest : Type 0 where
  pub visitor_name : Bytes
  pub road : Bytes

pub record WriteRequest : Type 0 where
  pub basic : BasicRequest
  pub open basic use *
  pub payload : Value

pub record RegisterRequest : Type 0 where
  pub basic : BasicRequest
  pub open basic use *
  pub timeout : ℤ

pub record ReadRequest : Type 0 where
  pub basic : BasicRequest
  pub open basic use *
  pub timeout : ℤ

abbrev pub get_new_write_request : Bytes → Bytes → Value → WriteRequest
get_new_write_request visitor_name road payload = record {
  basic = record { visitor_name = visitor_name; road = road };
  payload = payload;
}

abbrev pub new_register_request : Bytes → Bytes → ℤ → RegisterRequest
new_register_request visitor_name road timeout = record {
  basic = record { visitor_name = visitor_name; road = road };
  timeout = timeout;
}

abbrev pub new_read_request : Bytes → Bytes → ℤ → ReadRequest
new_read_request visitor_name road timeout = record {
  basic = record { visitor_name = visitor_name; road = road };
  timeout = timeout;
}

-- A reader is its visitor; the channel for its answer is left out.
abbrev pub create_read : ReadRequest → VisitorBasicType
create_read input = set_visitor input.visitor_name input.road

abbrev pub create_visitor_rwait_from_register_request : RegisterRequest → VisitorBasicType
create_visitor_rwait_from_register_request input = set_visitor input.visitor_name input.road

-- The text of an int, as `%d` writes it.
unfoldable pub signed_decimal : ℤ → Bytes
unfolding decimal
signed_decimal (pos n) = decimal n
signed_decimal (negsuc n) = b'-' ∷ decimal (n + 1)

-- The method `String` of a registration.
unfoldable pub register_string : RegisterRequest → Bytes
unfolding signed_decimal
register_string register =
    utf8 "[visitor:"
    ++ (register.visitor_name
        ++ (utf8 ",path:"
            ++ (register.road
                ++ (utf8 ",timeout:" ++ (signed_decimal register.timeout ++ utf8 "]")))))

-- `kernelMaxResponseTime` in nanoseconds, and `defaultWaitTime` in seconds.
abbrev pub kernel_max_response_time : ℤ
kernel_max_response_time = pos 500000000

abbrev pub default_wait_time : ℤ
default_wait_time = pos 10

-- The answer to a registration that succeeds.
abbrev pub register_ok : Bytes
register_ok = utf8 "成功"

-- ===== src/Control/Serve.antt =====
-- component/visitorsControl.go: the cases of the select in `Control`.
use realtime_data_center.Base.{
  [], ℕ, Bool, true, false, [], ◌++◌, Option, none, some, if◌then◌else◌, length, Bytes, utf8,
  bytes_eq,
}
use realtime_data_center.Base.Int.{ℤ, pos, ltb_ℤ, sub64}
use realtime_data_center.Path.{input_from_string, output2string}
use realtime_data_center.Value.{Value, is_nil}
use realtime_data_center.Visitor.{ReadResult, VisitorW, Race, nil_key, set_visitor}
use realtime_data_center.Json.{Outcome, WriteError, ok, err, panic, find, write, read}
use realtime_data_center.Affect.{LongPollReadControl, apply_for, affect}
use realtime_data_center.Performance.{SingleNodePerformance, add, fail}
use realtime_data_center.Control.{
  create_read, create_visitor_rwait_from_register_request, VisitorsControl, WriteRequest,
  ReadRequest, RegisterRequest, kernel_max_response_time, register_ok, register_string,
}
use realtime_data_center.Control.Notify.{affected_read_return}

-- What happens around the handling of one request: whether the client takes the answer before the
-- kernel gives up; the clock when the handling starts, when the answer is dealt with and at the end,
-- and its hour; the two texts of measurements that the failure records hold; and for each listener
-- what its reader does while an update waits.
pub record Around : Type 0 where
  pub taken : Bool
  pub start : ℤ
  pub write_over : ℤ
  pub finish : ℤ
  pub hour : ℕ
  pub timing : Bytes
  pub summary : Bytes
  pub races : Bytes → Race

abbrev pub unless :
    Bool
    → (SingleNodePerformance → SingleNodePerformance)
    → SingleNodePerformance
    → SingleNodePerformance
unless true f node = node
unless false f node = f node

-- The end of each case: one operation more, and a failure if it took too long.
unfoldable pub account : Around → SingleNodePerformance → SingleNodePerformance
account env node =
    let cost_time = sub64 env.finish env.start in
    let node' = add node (pos 1) cost_time env.hour in
    if ltb_ℤ kernel_max_response_time cost_time
    then fail (utf8 "处理时间过长") (pos 1) env.summary node'
    else node'

-- The failure of an answer that nobody takes.
unfoldable pub answer_timeout : Around → Bytes → SingleNodePerformance → SingleNodePerformance
answer_timeout env reason = unless env.taken (fail (utf8 "channel超时错误") (pos 1) reason)

-- The failure of updates to `n` affected listeners, if the text of the errors is not empty.
unfoldable pub affected_failure : Around → Bytes → ℕ → SingleNodePerformance → SingleNodePerformance
affected_failure env errors n =
    unless (bytes_eq errors [])
      (fail (utf8 "处理错误") (pos n) (utf8 "错误:" ++ (errors ++ (utf8 "\n" ++ env.timing))))

-- A write request on a tree that `Write` left as `json`: the listeners are told, in any case.
module _ (float_text : ℕ → Bytes) where
  unfoldable pub after_write : Around → WriteRequest → Value → VisitorsControl → VisitorsControl
  after_write env rec json control =
      let road = output2string (input_from_string rec.road) in
      let affected = affect road control.wait_with_timeout in
      let affected_len = length affected in
      let (table, errors) =
        affected_read_return float_text env.races json rec.visitor_name env.write_over affected
          control.wait_with_timeout in
      let p = control.performance in
      record {
        json = json;
        wait_with_timeout = table;
        performance = record p {
          write_performance =
              account env
                (answer_timeout env (rec.visitor_name ++ utf8 "写返回channel超时") p.write_performance);
          write_affected_performance =
              add (affected_failure env errors affected_len p.write_affected_performance)
                (pos affected_len) (sub64 env.finish env.write_over) env.hour;
        };
      }

  -- The new state and the answer, an error or nil; `none` if `Write` panics, which ends the program.
  unfoldable pub answer_write :
      Around
      → WriteRequest
      → VisitorsControl
      → Outcome Value
      → Option (VisitorsControl × Option WriteError)
  answer_write env rec control (ok json) = some (after_write env rec json control, none)
  answer_write env rec control (err e) = some (after_write env rec control.json control, some e)
  answer_write env rec control panic = none

  unfoldable pub serve_write :
      Around → WriteRequest → VisitorsControl → Option (VisitorsControl × Option WriteError)
  unfolding answer_write
  serve_write env rec control =
      let a : VisitorW = record {
        basic = set_visitor rec.visitor_name rec.road;
        payload = rec.payload;
      } in
      answer_write env rec control (write control.json a)

  unfoldable pub serve_read : Around → ReadRequest → VisitorsControl → VisitorsControl × ReadResult
  serve_read env rec control =
      let p = control.performance in
      (
        record control {
          performance = record p {
            unblock_read_performance = account env (
                answer_timeout env (rec.visitor_name ++ utf8 "不阻塞读返回channel超时")
                  p.unblock_read_performance);
          };
        },
        read float_text control.json (create_read rec),
      )

-- The table and the statistics after a registration's path is looked up, and the answer.
unfoldable pub try_register :
    RegisterRequest → VisitorsControl → LongPollReadControl × SingleNodePerformance × ReadResult
try_register rec control =
    let p = control.performance.register_performance in
    let (table, visitor) =
      apply_for (create_visitor_rwait_from_register_request rec) control.wait_with_timeout in
    if is_nil (find control.json (input_from_string rec.road))
    then (
      control.wait_with_timeout,
      fail (utf8 "请求资源不存在") (pos 1) (utf8 "不存在路径" ++ rec.road) p,
      nil_key,
    )
    else elim visitor [
      | some v ↦ (table, p, register_ok)
      | none ↦
          (table, fail (utf8 "无效资源") (pos 1) (utf8 "无效缓冲区管道" ++ register_string rec) p, nil_key)
    ]

unfoldable pub serve_register :
    Around → RegisterRequest → VisitorsControl → VisitorsControl × ReadResult
unfolding try_register
serve_register env rec control =
    let (table, node, result) = try_register rec control in
    let p = control.performance in
    (
      record control {
        wait_with_timeout = table;
        performance = record p {
          register_performance = account env (
              answer_timeout env (utf8 "注册请求" ++ (register_string rec ++ utf8 "结果通过chan返回缓冲区超时"))
                node);
        };
      },
      result,
    )

-- What the loop of `Control` meets in a round.
pub data Event : Type 0 where
  write_event : Around → WriteRequest → Event
  read_event : Around → ReadRequest → Event
  register_event : Around → RegisterRequest → Event
  idle : Event

module _ (float_text : ℕ → Bytes) where
  -- One round; `none` once the program has ended by a panic.
  unfoldable pub round : Event → VisitorsControl → Option VisitorsControl
  round (write_event env rec) control = elim (serve_write float_text env rec control) [
    | none ↦ none
    | some (c, e) ↦ some c
  ]
  round (read_event env rec) control = some (serve_read float_text env rec control).0
  round (register_event env rec) control = some (serve_register env rec control).0
  round idle control = some control

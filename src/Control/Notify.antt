-- ===== src/Control/Notify.antt =====
-- component/visitorsControl.go: `affectedReadReturn`, which passes what a write changed to the
-- listeners that it affects.
use realtime_data_center.Base.{
  ℕ, [], ◌∷◌, ◌++◌, none, some, if◌then◌else◌, Bytes, utf8, Dict, lookup, insert,
}
use realtime_data_center.Base.Int.{ℤ}
use realtime_data_center.Path.{output2string}
use realtime_data_center.Value.{Value}
use realtime_data_center.Visitor.{
  ReadResult, VisitorRwaitAndBuffer, Race, is_nil_result, visitor_string, insert_update,
  insert_error_text,
}
use realtime_data_center.Json.{read}
use realtime_data_center.Affect.{LongPollReadControl, remove}

-- What the loop changes: the table, the results by the text of their path, and the text of the errors.
pub record Loop : Type 0 where
  pub table : LongPollReadControl
  pub already_json : Dict ReadResult
  pub errors : Bytes

-- The listener behind the pointer is updated, and leaves the table if that fails.
unfoldable pub deliver :
    Race
    → Bytes
    → VisitorRwaitAndBuffer
    → ReadResult
    → Bytes
    → ℤ
    → LongPollReadControl
    → Bytes
    → LongPollReadControl × Bytes
deliver race key value ret visitor_name timestamp table errors =
    let (value', insert_err) = insert_update race value ret visitor_name timestamp in
    elim insert_err [
      | none ↦ (insert key value' table, errors)
      | some e ↦ (
        remove key table,
        errors
            ++ (visitor_string value.basic
                ++ (utf8 ":更新错误-" ++ (insert_error_text value e ++ utf8 ",删除该访问者\n"))),
      )
    ]

module _ (float_text : ℕ → Bytes) where
  -- The result for a listener: a kept one, or what is read now.
  unfoldable pub cached_read :
      Value → VisitorRwaitAndBuffer → Dict ReadResult → ReadResult × Dict ReadResult
  cached_read json value cache =
      let path_string = output2string value.path in
      let fresh = read float_text json value.basic in
      elim (lookup path_string cache) [
        | some ret ↦ (ret, cache)
        | none ↦ (fresh, insert path_string fresh cache)
      ]

  -- One round, for one affected listener.
  unfoldable pub notify_one :
      (Bytes → Race) → Value → Bytes → ℤ → Bytes × VisitorRwaitAndBuffer → Loop → Loop
  notify_one races json visitor_name timestamp (key, value) loop =
      let (ret, cache) = cached_read json value loop.already_json in
      let (table, errors) =
        deliver (races key) key value ret visitor_name timestamp loop.table loop.errors in
      if is_nil_result ret
      then record {
        table = loop.table;
        already_json = cache;
        errors = loop.errors ++ (visitor_string value.basic ++ utf8 ":读结果返回通道为空\n");
      }
      else record { table = table; already_json = cache; errors = errors }

  unfoldable pub notify_loop :
      (Bytes → Race) → Value → Bytes → ℤ → Dict VisitorRwaitAndBuffer → Loop → Loop
  unfolding notify_one
  notify_loop races json visitor_name timestamp [] loop = loop
  notify_loop races json visitor_name timestamp (e ∷ affected) loop =
      notify_loop races json visitor_name timestamp affected
        (notify_one races json visitor_name timestamp e loop)

  -- The new table and the text of the errors, empty if there was none.
  unfoldable pub affected_read_return :
      (Bytes → Race)
      → Value
      → Bytes
      → ℤ
      → Dict VisitorRwaitAndBuffer
      → LongPollReadControl
      → LongPollReadControl × Bytes
  unfolding notify_loop
  affected_read_return races json visitor_name timestamp affected table =
      let loop =
        notify_loop races json visitor_name timestamp affected
          (record { table = table; already_json = []; errors = [] }) in
      (loop.table, loop.errors)

-- ===== src/Control/Errors.antt =====
-- component/component.go and component/visitorsControl.go: the texts of the errors that a write returns.
use realtime_data_center.Base.{[], ◌++◌, Option, none, some, Bytes, utf8, decimal}
use realtime_data_center.Path.{output2string}
use realtime_data_center.Value.{
  Kind, nil_type, bool_type, float_type, string_type, slice_type, map_type,
}
use realtime_data_center.Json.{
  WriteError, not_found, type_mismatch, no_child, not_an_index, not_a_key, index_out_of_range,
}
use realtime_data_center.Control.Calls.{WriteReply, written, no_answer, not_accepted, refused}

-- The method `String` of a reflect.Type. The nil type has none: its use ends the program before.
unfoldable pub kind_text : Kind → Bytes
kind_text nil_type = []
kind_text bool_type = utf8 "bool"
kind_text float_type = utf8 "float64"
kind_text string_type = utf8 "string"
kind_text slice_type = utf8 "[]interface {}"
kind_text map_type = utf8 "map[string]interface {}"

unfoldable pub error_text : WriteError → Bytes
unfolding kind_text
error_text (not_found father) = utf8 "未发现:" ++ output2string father
error_text (type_mismatch path given found) =
    output2string path
    ++ (utf8 "写入类型" ++ (kind_text given ++ (utf8 "与实际类型" ++ (kind_text found ++ utf8 "不相同"))))
error_text (no_child father name path) =
    utf8 "节点"
    ++ (output2string father ++ (utf8 "中不存在子节点" ++ (name ++ (utf8 ",实际:" ++ output2string path))))
error_text (not_an_index name) = name ++ utf8 ",类型错误（不为数组序号）"
error_text (not_a_key name) = name ++ utf8 ",类型错误（不为字典类型）"
error_text (index_out_of_range father name size) =
    utf8 "节点"
    ++ (output2string father ++ (utf8 ",数组越界" ++ (name ++ (utf8 ",实际大小:" ++ decimal size))))

-- The error that `WriteQuickly` returns; `none` is nil.
unfoldable pub write_error : WriteReply → Option Bytes
unfolding error_text
write_error written = none
write_error no_answer = some (utf8 "写操作等待返回超时")
write_error not_accepted = some (utf8 "内部管道传送失败")
write_error (refused e) = some (error_text e)

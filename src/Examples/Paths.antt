-- ===== src/Examples/Paths.antt =====
-- component/path.go: the theorems on paths at concrete texts.
use realtime_data_center.Base.{
  ◌≡◌, refl, ◌≢◌, ◌↔◌, true, false, [], ◌∷◌, ◌++◌, min, Bytes, utf8, All,
}
use realtime_data_center.Base.Int.{pos, negsuc}
use realtime_data_center.Golib.Strings.{split}
use realtime_data_center.Golib.Strconv.{IsDigit, value_from, max_int}
use realtime_data_center.Path.{
  whether_number_string, input, input_from_string, output2string, father, last, zero_node,
}
use realtime_data_center.Path.Segments.{whether_number_string_iff, input_lem}
use realtime_data_center.Path.RoundTrip.{
  input_from_string-output2string, input_from_string-append, canonical, input_from_string-IsParsed,
}
use realtime_data_center.Path.Family.{father-last}

abbrev road : Bytes
road = utf8 "plant/line/7"

whether_number_string_iff_test :
    (whether_number_string (utf8 "042") ≡ true) ↔ ((utf8 "042" ≢ []) × All IsDigit (utf8 "042"))
whether_number_string_iff_test = whether_number_string_iff (utf8 "042")

input_lem_example :
    ((input zero_node (utf8 "042")).value ≡ utf8 "042")
    × (((input zero_node (utf8 "042")).whether_array ≡ true)
        ↔ ((utf8 "042" ≢ []) × All IsDigit (utf8 "042")))
    × ((input zero_node (utf8 "042")).whether_array ≡ true
        → (input zero_node (utf8 "042")).array ≡ pos (min (value_from 0 (utf8 "042")) max_int))
    × ((input zero_node (utf8 "042")).whether_array ≡ false
        → (input zero_node (utf8 "042")).array ≡ negsuc 0)
input_lem_example = input_lem zero_node (utf8 "042")

input_from_string-output2string_example :
    input_from_string (output2string (input_from_string road)) ≡ input_from_string road
input_from_string-output2string_example =
    input_from_string-output2string (input_from_string road) (input_from_string-IsParsed road)

input_from_string-append_example :
    input_from_string (utf8 "/plant//" ++ b'/' ∷ utf8 "7/")
    ≡ input_from_string (utf8 "/plant//") ++ input_from_string (utf8 "7/")
input_from_string-append_example = input_from_string-append (utf8 "/plant//") (utf8 "7/")

same_road :
    output2string (input_from_string (utf8 "/plant//7"))
    ≡ output2string (input_from_string (utf8 "plant/7/"))
unfolding output2string input_from_string split
same_road = refl

canonical_test : input_from_string (utf8 "/plant//7") ≡ input_from_string (utf8 "plant/7/")
canonical_test = (canonical (utf8 "/plant//7") (utf8 "plant/7/")).1 same_road

road_nodes : input_from_string road ≢ []
unfolding input_from_string split
road_nodes = λ e. cc

father-last_test :
    father (input_from_string road) ++ last (input_from_string road) ∷ [] ≡ input_from_string road
father-last_test = (father-last (input_from_string road)).0 road_nodes

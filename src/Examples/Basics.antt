-- ===== src/Examples/Basics.antt =====
-- The shared helpers and the package component: the definitions computed on small inputs.
use realtime_data_center.Base.{◌≡◌, refl, ◌-◌, ◌^◌, true, [], ◌∷◌, none, some, utf8, decimal}
use realtime_data_center.Base.Int.{pos, negsuc, add64, div64}
use realtime_data_center.Golib.Strings.{split}
use realtime_data_center.Golib.Strconv.{atoi, max_int, out_of_range}
use realtime_data_center.Path.{input_from_string, output2string, last}
use realtime_data_center.Value.{float, null, text, array, object, nil, cons, end, field}
use realtime_data_center.Value.Marshal.{marshal}
use realtime_data_center.Affect.{whether_contain}

slashes : output2string (input_from_string (utf8 "/a//b7/42/")) ≡ utf8 "a/b7/42"
unfolding output2string input_from_string split
slashes = refl

index_node :
    last (input_from_string (utf8 "a/042"))
    ≡ record { whether_array = true; value = utf8 "042"; array = pos 42 }
unfolding last input_from_string split atoi
index_node = refl

negative_quotient : div64 (negsuc 6) (pos 2) ≡ negsuc 2
unfolding div64
negative_quotient = refl

overflow : add64 (pos (2 ^ 63 - 1)) (pos 1) ≡ negsuc (2 ^ 63 - 1)
unfolding add64
overflow = refl

chinese : utf8 "访" ≡ 0xe8 ∷ 0xae ∷ 0xbf ∷ []
chinese = refl

three_digits : decimal 507 ≡ utf8 "507"
unfolding decimal
three_digits = refl

spurious : whether_contain (utf8 "data/a") (utf8 "data/ab/c") ≡ true
unfolding whether_contain
spurious = refl

sorted_keys :
    marshal
      (λ n. utf8 "1")
      (object (
        field
          (utf8 "b")
          (array (cons (float 1) (cons null nil)))
          (field (utf8 "a<") (text (utf8 "x\"y")) end)))
    ≡ utf8 "{\"a\\u003c\":\"x\\\"y\",\"b\":[1,null]}"
unfolding marshal
sorted_keys = refl

atoi_negative : atoi (utf8 "-12") ≡ (negsuc 11, none)
unfolding atoi
atoi_negative = refl

atoi_large : atoi (utf8 "9223372036854775808") ≡ (pos max_int, some out_of_range)
unfolding atoi
atoi_large = refl

split_slashes : split b'/' (utf8 "/a//bc") ≡ [] ∷ utf8 "a" ∷ [] ∷ utf8 "bc" ∷ []
unfolding split
split_slashes = refl

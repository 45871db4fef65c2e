-- ===== src/Path/Segments.antt =====
-- component/path.go: which texts are array indices, and the loops of `InputFromString` and
-- `Output2String` as plain recursions over segments.
use realtime_data_center.Base.{
  ℕ, suc, ◌+◌, ◌≡◌, refl, sym, ◌≢◌, ◌↔◌, true, false, List, [], ◌∷◌, ◌++◌, map, append_assoc,
  append-nil, arith, min, Bytes, All,
}
use realtime_data_center.Base.Int.{pos, negsuc}
use realtime_data_center.Golib.Strings.{Lacks, split, split-Lacks}
use realtime_data_center.Golib.Strconv.{IsDigit, value_from, max_int, atoi_digits}
use realtime_data_center.Path.{
  PathNode, NodePath, zero_node, all_digits, whether_number_string, input, input_loop,
  input_from_string, output_loop, output2string, name,
}

all_digits_iff : (s : Bytes) → (all_digits s ≡ true) ↔ All IsDigit s
unfolding all_digits
all_digits_iff [] = ((λ _. tt), λ _. refl)
all_digits_iff (c ∷ s) = ground (arith, all_digits_iff s)

-- A text is taken for an array index exactly when it is one or more decimal digits.
pub whether_number_string_iff :
    (s : Bytes) → (whether_number_string s ≡ true) ↔ ((s ≢ []) × All IsDigit s)
unfolding whether_number_string
whether_number_string_iff [] = ((λ h. cc), λ h. absurd (h.0 refl))
whether_number_string_iff (c ∷ s) =
    ((λ h. ((λ e. cc), (all_digits_iff (c ∷ s)).0 h)), λ h. (all_digits_iff (c ∷ s)).1 h.1)

-- The node that `Input` makes of a text, whatever the node held before.
abbrev pub node_of : Bytes → PathNode
node_of = input zero_node

pub input_any : (a b : PathNode) (s : Bytes) → input a s ≡ input b s
unfolding input
input_any a b s = refl

pub name-input : (a : PathNode) (s : Bytes) → (input a s).value ≡ s
unfolding input
name-input a s = ground arith

pub whether_array-input :
    (a : PathNode) (s : Bytes) → (input a s).whether_array ≡ whether_number_string s
unfolding input
whether_array-input a s = ground arith

-- A node made of a text carries the text, and is an array node exactly when the text is one or more
-- digits; it then holds the number that they spell, or the largest int64 if that is smaller, and
-- otherwise -1.
pub input_lem :
    (a : PathNode) (s : Bytes)
    → ((input a s).value ≡ s)
      × (((input a s).whether_array ≡ true) ↔ ((s ≢ []) × All IsDigit s))
      × ((input a s).whether_array ≡ true → (input a s).array ≡ pos (min (value_from 0 s) max_int))
      × ((input a s).whether_array ≡ false → (input a s).array ≡ negsuc 0)
unfolding input whether_number_string
input_lem a [] = (refl, ((λ h. cc), λ h. absurd (h.0 refl)), (λ h. cc), λ _. refl)
input_lem a (c ∷ s) =
    ground (arith, whether_number_string_iff (c ∷ s), all_digits_iff (c ∷ s), atoi_digits c s)

-- A segment of a path: not empty, and with no slash in it.
abbrev pub IsSegment : Bytes → Type 0
IsSegment s = (s ≢ []) × Lacks b'/' s

unfoldable pub non_empty : List Bytes → List Bytes
non_empty [] = []
non_empty ([] ∷ ps) = non_empty ps
non_empty ((c ∷ p) ∷ ps) = (c ∷ p) ∷ non_empty ps

abbrev pub segments : Bytes → List Bytes
segments text = non_empty (split b'/' text)

pub non_empty-IsSegment : (ps : List Bytes) → All (Lacks b'/') ps → All IsSegment (non_empty ps)
unfolding non_empty
non_empty-IsSegment [] _ = tt
non_empty-IsSegment ([] ∷ ps) (_, h) = non_empty-IsSegment ps h
non_empty-IsSegment ((c ∷ p) ∷ ps) (hp, h) = (((λ e. cc), hp), non_empty-IsSegment ps h)

pub segments-IsSegment : (text : Bytes) → All IsSegment (segments text)
segments-IsSegment text = non_empty-IsSegment _ (split-Lacks b'/' text)

input_loop_lem :
    (ps : List Bytes) (a : PathNode) (nodes : NodePath)
    → input_loop ps a nodes ≡ nodes ++ map node_of (non_empty ps)
unfolding input_loop non_empty
input_loop_lem [] a nodes = sym (append-nil nodes)
input_loop_lem ([] ∷ ps) a nodes = input_loop_lem ps a nodes
input_loop_lem ((c ∷ p) ∷ ps) a nodes =
    simp (input_loop_lem ps, append_assoc) (rw (input_any a zero_node (c ∷ p)))

pub input_from_string_lem : (text : Bytes) → input_from_string text ≡ map node_of (segments text)
unfolding input_from_string
input_from_string_lem text = input_loop_lem (split b'/' text) zero_node []

-- The texts with a slash in front of each.
unfoldable pub slashed : List Bytes → Bytes
slashed [] = []
slashed (s ∷ ss) = b'/' ∷ (s ++ slashed ss)

unfoldable pub join : List Bytes → Bytes
unfolding slashed
join [] = []
join (s ∷ ss) = s ++ slashed ss

output_loop_lem :
    (i : ℕ) (p : NodePath) (out : Bytes) → output_loop (suc i) p out ≡ out ++ slashed (map name p)
unfolding output_loop slashed
output_loop_lem i [] out = sym (append-nil out)
output_loop_lem i (n ∷ p) out = ground (
  arith,
  output_loop_lem (i + 1) p (out ++ b'/' ∷ n.value),
  append_assoc out (b'/' ∷ n.value) (slashed (map name p)),
)

pub output2string_lem : (p : NodePath) → output2string p ≡ join (map name p)
unfolding output2string join output_loop
output2string_lem [] = refl
output2string_lem (n ∷ p) = output_loop_lem 0 p n.value

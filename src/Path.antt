-- ===== src/Path.antt =====
-- component/path.go: paths into the data tree, as lists of nodes. A nil slice of nodes and an empty
-- one are read alike everywhere, and both are the empty list here.
pub mod Segments
pub mod RoundTrip
pub mod Family
use realtime_data_center.Base.{
  ℕ, zero, suc, ◌+◌, ◌≡◌, refl, Bool, true, false, ◌&&◌, ◌||◌, List, [], ◌∷◌, ◌++◌, arith, ltb,
  ◌==◌, if◌then◌else◌, Bytes, utf8,
}
use realtime_data_center.Base.Int.{ℤ, pos, negsuc}
use realtime_data_center.Golib.Strings.{split}
use realtime_data_center.Golib.Strconv.{atoi}

pub data NodeType : Type 0 where
  path_node_string path_node_array : NodeType

all_digits : Bytes → Bool
all_digits [] = true
all_digits (c ∷ s) = if ltb c 0x30 || ltb 0x39 c then false else all_digits s

unfoldable pub whether_number_string : Bytes → Bool
unfolding all_digits
whether_number_string [] = false
whether_number_string (c ∷ s) = all_digits (c ∷ s)

pub record PathNode : Type 0 where
  pub whether_array : Bool
  pub value : Bytes
  pub array : ℤ

-- `PathNode{}`
abbrev pub zero_node : PathNode
zero_node = record { whether_array = false; value = []; array = pos 0 }

abbrev pub type : PathNode → NodeType
type node = if node.whether_array then path_node_array else path_node_string

abbrev pub number : PathNode → ℤ
number node = node.array

abbrev pub name : PathNode → Bytes
name node = node.value

-- The method `Input`, which sets every field; the error of `Atoi` is dropped.
unfoldable pub input : PathNode → Bytes → PathNode
unfolding whether_number_string
input node text =
    if whether_number_string text
    then record { whether_array = true; value = text; array = (atoi text).0 }
    else record { whether_array = false; value = text; array = negsuc 0 }

abbrev pub NodePath : Type 0
NodePath = List PathNode

-- `Iter`: the callback changes the state that it closes over, and stops the loop by `true`.
unfoldable pub iter {ℓ} : {S : Type ℓ} → (PathNode → S → S × Bool) → NodePath → S → S
iter do' [] s = s
iter do' (node ∷ path) s =
    let (s', stop) = do' node s in let rest = iter do' path s' in if stop then s' else rest

-- The loop of `InputFromString`, with the one node `a` that it fills again and again.
input_loop : List Bytes → PathNode → NodePath → NodePath
unfolding input
input_loop [] a nodes = nodes
input_loop ([] ∷ s) a nodes = input_loop s a nodes
input_loop ((c ∷ part) ∷ s) a nodes =
    let a' = input a (c ∷ part) in input_loop s a' (nodes ++ a' ∷ [])

unfoldable pub input_from_string : Bytes → NodePath
unfolding input_loop
input_from_string text = input_loop (split b'/' text) zero_node []

output_loop : ℕ → NodePath → Bytes → Bytes
output_loop i [] path_all = path_all
output_loop i (node ∷ nodes) path_all =
    output_loop (i + 1) nodes
      (if i == 0 then path_all ++ name node else path_all ++ b'/' ∷ name node)

unfoldable pub output2string : NodePath → Bytes
unfolding output_loop
output2string path = output_loop 0 path []

but_last : NodePath → NodePath
but_last [] = []
but_last (a ∷ []) = []
but_last (a ∷ b ∷ path) = a ∷ but_last (b ∷ path)

unfoldable pub father : NodePath → NodePath
unfolding but_last input_from_string
father [] = input_from_string []
father (a ∷ []) = input_from_string []
father (a ∷ b ∷ path) = but_last (a ∷ b ∷ path)

unfoldable pub last : NodePath → PathNode
last [] = zero_node
last (a ∷ []) = a
last (a ∷ b ∷ path) = last (b ∷ path)

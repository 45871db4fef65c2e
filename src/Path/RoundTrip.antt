-- ===== src/Path/RoundTrip.antt =====
-- component/path.go: paths and their texts.
use realtime_data_center.Base.{
  ◌≡◌, refl, sym, ap, ◌∙◌, List, [], ◌∷◌, ◌++◌, map, append-nil, Bytes, All,
}
use mathlib.Core.List.{map-append}
use realtime_data_center.Golib.Strings.{split, split-append, split_one}
use realtime_data_center.Path.{NodePath, name, input_from_string, output2string, zero_node}
use realtime_data_center.Path.Segments.{
  node_of, IsSegment, non_empty, segments, segments-IsSegment, name-input, input_from_string_lem,
  slashed, join, output2string_lem,
}

non_empty-append : (ps qs : List Bytes) → non_empty (ps ++ qs) ≡ non_empty ps ++ non_empty qs
unfolding non_empty
non_empty-append [] qs = refl
non_empty-append ([] ∷ ps) qs = non_empty-append ps qs
non_empty-append ((c ∷ p) ∷ ps) qs = ap (λ r. (c ∷ p) ∷ r) (non_empty-append ps qs)

segments-append : (a b : Bytes) → segments (a ++ b'/' ∷ b) ≡ segments a ++ segments b
segments-append a b = rw (split-append b'/' a b) (non_empty-append _ _)

segments_one : (s : Bytes) → IsSegment s → segments s ≡ s ∷ []
unfolding non_empty
segments_one [] h = absurd (h.0 refl)
segments_one (c ∷ s) h = rw (split_one b'/' (c ∷ s) h.1)

segments-slashed :
    (s : Bytes) (ss : List Bytes)
    → IsSegment s
    → All IsSegment ss
    → segments (s ++ slashed ss) ≡ s ∷ ss
unfolding slashed
segments-slashed s [] h _ = rw append-nil (segments_one s h)
segments-slashed s (t ∷ ss) h (ht, hss) =
    rw (segments-append s (t ++ slashed ss), segments_one s h, segments-slashed t ss ht hss)

pub segments-join : (ss : List Bytes) → All IsSegment ss → segments (join ss) ≡ ss
unfolding join
segments-join [] _ = unfold split non_empty in refl
segments-join (s ∷ ss) (h, hss) = segments-slashed s ss h hss

-- A path as the program builds them: each node is what `Input` makes of one segment.
abbrev pub IsParsed : NodePath → Type 0
IsParsed = All (λ n. IsSegment n.value × (n ≡ node_of n.value))

map-node_of-IsParsed : (ss : List Bytes) → All IsSegment ss → IsParsed (map node_of ss)
map-node_of-IsParsed [] _ = tt
map-node_of-IsParsed (s ∷ ss) (h, hss) = (
  (rw (name-input zero_node s) h, ap node_of (sym (name-input zero_node s))),
  map-node_of-IsParsed ss hss,
)

map-name-map : (ss : List Bytes) → map name (map node_of ss) ≡ ss
map-name-map [] = refl
map-name-map (s ∷ ss) = rw (name-input zero_node s, map-name-map ss)

map-name-IsSegment : (p : NodePath) → IsParsed p → All IsSegment (map name p)
map-name-IsSegment [] _ = tt
map-name-IsSegment (n ∷ p) (h, hp) = (h.0, map-name-IsSegment p hp)

map-node_of-map : (p : NodePath) → IsParsed p → map node_of (map name p) ≡ p
map-node_of-map [] _ = refl
map-node_of-map (n ∷ p) (h, hp) = cc (h.1, map-node_of-map p hp)

-- Every text parses to a path of well-formed nodes.
pub input_from_string-IsParsed : (text : Bytes) → IsParsed (input_from_string text)
input_from_string-IsParsed text =
    rw input_from_string_lem (map-node_of-IsParsed _ (segments-IsSegment text))

-- Printing a path that the program built and parsing the text gives the path back.
pub input_from_string-output2string :
    (p : NodePath) → IsParsed p → input_from_string (output2string p) ≡ p
input_from_string-output2string p h =
    rw (output2string_lem, input_from_string_lem, segments-join _ (map-name-IsSegment p h))
      (map-node_of-map p h)

-- Two texts that a slash joins parse to the two paths one behind the other: leading, trailing and
-- doubled slashes do not matter.
pub input_from_string-append :
    (a b : Bytes) → input_from_string (a ++ b'/' ∷ b) ≡ input_from_string a ++ input_from_string b
input_from_string-append a b = simp (input_from_string_lem, segments-append, map-append)

-- The text of a parsed path is a canonical form of the text that was parsed: parsing and printing
-- it again changes nothing, and texts with the same canonical form parse to the same path.
pub canonical :
    (a b : Bytes)
    → (output2string (input_from_string (output2string (input_from_string a)))
        ≡ output2string (input_from_string a))
      × ((output2string (input_from_string a) ≡ output2string (input_from_string b))
          → input_from_string a ≡ input_from_string b)
canonical a b = (ap output2string (back a), λ e. sym (back a) ∙ ap input_from_string e ∙ back b)
  where
    back :
        (t : Bytes) → input_from_string (output2string (input_from_string t)) ≡ input_from_string t
    back t = input_from_string-output2string _ (input_from_string-IsParsed t)

pub input_from_string_segment : (s : Bytes) → IsSegment s → input_from_string s ≡ node_of s ∷ []
input_from_string_segment s h = rw (input_from_string_lem, segments_one s h)

pub output2string-input_from_string_segment :
    (s : Bytes) → IsSegment s → output2string (input_from_string s) ≡ s
unfolding join slashed
output2string-input_from_string_segment s h =
    rw (input_from_string_segment s h, output2string_lem) (rw (name-input zero_node s, append-nil))

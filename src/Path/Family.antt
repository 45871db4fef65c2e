-- ===== src/Path/Family.antt =====
-- component/path.go: a path as its father and its last node.
use realtime_data_center.Base.{ℕ, ◌≡◌, refl, sym, ap, ◌∙◌, true, ◌≢◌, [], ◌∷◌, ◌++◌}
use realtime_data_center.Golib.Strings.{split}
use realtime_data_center.Path.{
  PathNode, NodePath, but_last, input_from_string, father, last, zero_node,
}
use realtime_data_center.Base.Int.{pos}
use realtime_data_center.Path.Segments.{input_lem}
use realtime_data_center.Path.RoundTrip.{IsParsed}

but_last-last : (a : PathNode) (p : NodePath) → but_last (a ∷ p) ++ last (a ∷ p) ∷ [] ≡ a ∷ p
unfolding but_last last
but_last-last a [] = refl
but_last-last a (b ∷ p) = ap (λ r. a ∷ r) (but_last-last b p)

father-but_last : (p : NodePath) → father p ≡ but_last p
unfolding father but_last input_from_string split
father-but_last [] = refl
father-but_last (a ∷ []) = refl
father-but_last (a ∷ b ∷ p) = refl

-- A path with a node is its father followed by its last node; the empty path has the root for its
-- father and the zero node for its last.
pub father-last :
    (p : NodePath)
    → (p ≢ [] → father p ++ last p ∷ [] ≡ p) × (p ≡ [] → (father p ≡ []) × (last p ≡ zero_node))
unfolding last but_last
father-last [] = ((λ h. absurd (h refl)), λ _. (father-but_last [], refl))
father-last (a ∷ p) = ((λ _. rw father-but_last (but_last-last a p)), λ h. cc)

but_last-IsParsed : (p : NodePath) → IsParsed p → IsParsed (but_last p)
unfolding but_last
but_last-IsParsed [] _ = tt
but_last-IsParsed (a ∷ []) _ = tt
but_last-IsParsed (a ∷ b ∷ p) (h, hp) = (h, but_last-IsParsed (b ∷ p) hp)

pub father-IsParsed : (p : NodePath) → IsParsed p → IsParsed (father p)
father-IsParsed p h = rw father-but_last (but_last-IsParsed p h)

-- The last node of a parsed path: an array node holds a number that is not negative.
pub last-HasIndex :
    (p : NodePath)
    → IsParsed p
    → p ≢ []
    → (last p).whether_array ≡ true
    → (i : ℕ) × ((last p).array ≡ pos i)
unfolding last
last-HasIndex [] _ h e = absurd (h refl)
last-HasIndex (a ∷ []) ((h, made), _) _ e = (
  _,
  ap (λ n. n.array) made
      ∙ (input_lem zero_node a.value).2 (ap (λ n. n.whether_array) (sym made) ∙ e),
)
last-HasIndex (a ∷ b ∷ p) (_, h) _ e = last-HasIndex (b ∷ p) h (λ q. cc) e

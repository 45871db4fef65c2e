-- ===== src/Json/Put.antt =====
-- component/component.go: what is found in a tree after the value at a path is replaced.
use realtime_data_center.Base.{
  ◌≡◌, refl, sym, ◌∙◌, ap, ◌⊎◌, inl, inr, ◌≢◌, true, false, [], ◌∷◌, ◌++◌, none, some, arith,
  Option-cases, bytes_eq_iff,
}
use realtime_data_center.Base.Int.{ℤ, pos, negsuc}
use realtime_data_center.Path.{PathNode, NodePath}
use realtime_data_center.Value.{Value, Items, null, boolean, float, text, array, object, is_dir}
use realtime_data_center.Value.Maps.{lookup_field-set_field, get_item-set_item}
use realtime_data_center.Json.{find, child, item_at, set_at, replace_child, put}
use realtime_data_center.Json.Descent.{Exists, find-child, find_stuck}

-- Two nodes that name different children of every map and slice.
abbrev pub DifferentSlot : PathNode → PathNode → Type 0
DifferentSlot a b =
    (a.whether_array ≢ b.whether_array)
    ⊎ ((a.whether_array ≡ true) × (a.array ≢ b.array))
    ⊎ ((a.whether_array ≡ false) × (a.value ≢ b.value))

-- The two paths part ways: neither leads through the place of the other.
abbrev pub Diverge : NodePath → NodePath → Type 0
Diverge [] q = ⊥
Diverge (a ∷ p) [] = ⊥
Diverge (a ∷ p) (b ∷ q) =
    DifferentSlot a b
    ⊎ ((a.whether_array ≡ b.whether_array)
        × (a.array ≡ b.array)
        × (a.value ≡ b.value)
        × Diverge p q)

item_at-set_at :
    (i j : ℤ) (w : Value) (xs : Items) {old : Value}
    → item_at xs i ≡ some old
    → (item_at (set_at xs i w) i ≡ some w) × (i ≢ j → item_at (set_at xs i w) j ≡ item_at xs j)
unfolding item_at set_at
item_at-set_at (pos i) (pos j) w xs {old} h =
    ground
      (arith, get_item-set_item i i w xs {old = old} h, get_item-set_item i j w xs {old = old} h)
item_at-set_at (pos i) (negsuc j) w xs {old} h =
    ground (arith, get_item-set_item i i w xs {old = old} h)
item_at-set_at (negsuc i) j w xs {old} h = cc

-- A replaced child is the new one; the other children are as before.
pub child-replace_child :
    (a : PathNode) (w v : Value) {c : Value}
    → child a v ≡ some c
    → child a (replace_child a w v) ≡ some w
unfolding child replace_child
child-replace_child a w (object fs) {c} h =
    ground
      (arith, lookup_field-set_field a.value a.value w fs {old = c}, bytes_eq_iff a.value a.value)
child-replace_child a w (array xs) {c} h =
    ground (arith, item_at-set_at a.array a.array w xs {old = c})
child-replace_child a w null h = cc
child-replace_child a w (boolean b) h = cc
child-replace_child a w (float n) h = cc
child-replace_child a w (text s) h = cc

pub child-replace_child_ne :
    (a b : PathNode) (w v : Value) {c : Value}
    → child a v ≡ some c
    → DifferentSlot a b
    → child b (replace_child a w v) ≡ child b v
unfolding child replace_child
child-replace_child_ne a b w (object fs) {c} h d =
    ground
      (arith, lookup_field-set_field a.value b.value w fs {old = c}, bytes_eq_iff a.value b.value)
child-replace_child_ne a b w (array xs) {c} h d =
    ground (arith, item_at-set_at a.array b.array w xs {old = c})
child-replace_child_ne a b w null h d = cc
child-replace_child_ne a b w (boolean x) h d = cc
child-replace_child_ne a b w (float n) h d = cc
child-replace_child_ne a b w (text s) h d = cc

is_dir-replace_child : (a : PathNode) (w v : Value) → is_dir (replace_child a w v) ≡ is_dir v
unfolding replace_child
is_dir-replace_child a w v = ground arith

-- Nodes with the same three fields are the same node.
same_node :
    (a b : PathNode)
    → a.whether_array ≡ b.whether_array
    → a.array ≡ b.array
    → a.value ≡ b.value
    → a ≡ b
same_node a b h i j = ground arith

pub put-some :
    (a : PathNode) (p : NodePath) (w v c : Value)
    → child a v ≡ some c
    → put (a ∷ p) w v ≡ replace_child a (put p w c) v
unfolding put
put-some a p w v c e = rw (e, put)

-- At the place of the path, and below it, the new value is found.
pub find-put_below :
    (p q : NodePath) (w v : Value) → Exists v p → find (put p w v) (p ++ q) ≡ find w q
find-put_below [] q w v _ = unfold put in refl
find-put_below (a ∷ p) q w v (c, e, h) =
    rw
      (
        put-some a p w v c e,
        find-child a (p ++ q) _ _ (child-replace_child a (put p w c) v {c = c} e),
      )
      (find-put_below p q w c h)

pub Exists-put : (p : NodePath) (w v : Value) → Exists v p → Exists (put p w v) p
Exists-put [] w v _ = tt
Exists-put (a ∷ p) w v (c, e, h) = (
  put p w c,
  rw (put-some a p w v c e) (child-replace_child a (put p w c) v {c = c} e),
  Exists-put p w c h,
)

pub child-is_dir : (a : PathNode) (v c : Value) → child a v ≡ some c → is_dir v ≡ true
unfolding child
child-is_dir a v c h = ground arith

find_missing :
    (b : PathNode) (q : NodePath) (v : Value)
    → is_dir v ≡ true
    → child b v ≡ none
    → find v (b ∷ q) ≡ null
find_missing b q v h e = find_stuck b q v e ∙ rw h

find-replace_child_ne :
    (a b : PathNode) (q : NodePath) (w v c : Value)
    → child a v ≡ some c
    → DifferentSlot a b
    → find (replace_child a w v) (b ∷ q) ≡ find v (b ∷ q)
find-replace_child_ne a b q w v c e d = elim (Option-cases (child b v)) [
  | inl none_there ↦
      find_missing b q _ (is_dir-replace_child a w v ∙ child-is_dir a v c e) (same ∙ none_there)
      ∙ sym (find_missing b q v (child-is_dir a v c e) none_there)
  | inr (c', there) ↦ find-child b q _ c' (same ∙ there) ∙ sym (find-child b q v c' there)
]
  where
    same : child b (replace_child a w v) ≡ child b v
    same = child-replace_child_ne a b w v {c = c} e d

-- A path that parts ways with it finds what it found before.
pub find-put_ne :
    (p q : NodePath) (w v : Value) → Exists v p → Diverge p q → find (put p w v) q ≡ find v q
find-put_ne [] q w v _ d = absurd d
find-put_ne (a ∷ p) [] w v _ d = absurd d
find-put_ne (a ∷ p) (b ∷ q) w v (c, e, h) (inl d) =
    ap (λ u. find u (b ∷ q)) (put-some a p w v c e)
    ∙ find-replace_child_ne a b q (put p w c) v c e d
find-put_ne (a ∷ p) (b ∷ q) w v (c, e, h) (inr (i, j, k, d)) =
    rw
      (
        sym (same_node a b i j k),
        put-some a p w v c e,
        find-child a q _ _ (child-replace_child a (put p w c) v {c = c} e),
        find-child a q v c e,
      )
      (find-put_ne p q w c h d)

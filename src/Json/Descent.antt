-- ===== src/Json/Descent.antt =====
-- component/component.go: one step of `Find`, and the paths that lead somewhere.
use realtime_data_center.Base.{
  ◌≡◌, refl, sym, ◌∙◌, ap, true, false, [], ◌∷◌, ◌++◌, none, some, arith, if◌then◌else◌,
  Option-cases, inl, inr,
}
use realtime_data_center.Path.{PathNode, NodePath, iter}
use realtime_data_center.Value.{Value, null, boolean, float, text, array, object, is_dir}
use realtime_data_center.Json.{find_step, find, child}

-- Where a step of `Find` cannot go on it ends the walk with this.
abbrev pub stuck_at : PathNode → Value → Value
stuck_at node v = if is_dir v then null else if node.whether_array then null else v

pub find_step-child :
    (node : PathNode) (v c : Value) → child node v ≡ some c → find_step node v ≡ (c, false)
unfolding find_step child
find_step-child node (object fs) c h = ground arith
find_step-child node (array xs) c h = ground arith
find_step-child node null c h = cc
find_step-child node (boolean b) c h = cc
find_step-child node (float n) c h = cc
find_step-child node (text s) c h = cc

pub find_step_stuck :
    (node : PathNode) (v : Value) → child node v ≡ none → find_step node v ≡ (stuck_at node v, true)
unfolding find_step child
find_step_stuck node (object fs) h = ground arith
find_step_stuck node (array xs) h = ground arith
find_step_stuck node null h = ground arith
find_step_stuck node (boolean b) h = ground arith
find_step_stuck node (float n) h = ground arith
find_step_stuck node (text s) h = ground arith

pub find-child :
    (node : PathNode) (p : NodePath) (v c : Value)
    → child node v ≡ some c
    → find v (node ∷ p) ≡ find c p
unfolding find iter
find-child node p v c h = rw (find_step-child node v c h)

pub find_stuck :
    (node : PathNode) (p : NodePath) (v : Value)
    → child node v ≡ none
    → find v (node ∷ p) ≡ stuck_at node v
unfolding find iter
find_stuck node p v h = rw (find_step_stuck node v h)

-- The path leads from the value, by maps and slices, to a value.
abbrev pub Exists : Value → NodePath → Type 0
Exists v [] = Unit {0}
Exists v (node ∷ p) = (c : Value) × (child node v ≡ some c) × Exists c p

stuck_at-not_dir : (node : PathNode) (v : Value) → is_dir (stuck_at node v) ≡ false
stuck_at-not_dir node v = ground arith

-- A path at which `Find` finds a map or a slice leads there.
pub is_dir-find : (v : Value) (p : NodePath) → is_dir (find v p) ≡ true → Exists v p
is_dir-find v [] h = tt
is_dir-find v (node ∷ p) h = elim (Option-cases (child node v)) [
  | inl e ↦ absurd (cc (stuck_at-not_dir node v, ap is_dir (find_stuck node p v e)))
  | inr (c, e) ↦ (c, e, is_dir-find c p (ap is_dir (sym (find-child node p v c e)) ∙ h))
]

pub find-append : (v : Value) (p q : NodePath) → Exists v p → find v (p ++ q) ≡ find (find v p) q
unfolding find
find-append v [] q _ = refl
find-append v (node ∷ p) q (c, e, h) =
    find-child node (p ++ q) v c e
    ∙ find-append c p q h
    ∙ ap (λ w. find w q) (sym (find-child node p v c e))

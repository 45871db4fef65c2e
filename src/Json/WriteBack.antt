-- ===== src/Json/WriteBack.antt =====
-- component/component.go: a write of what the tree holds already.
use realtime_data_center.Base.{
  ◌⊎◌, ℕ, zero, suc, ◌≡◌, refl, sym, ap, ◌∙◌, inl, inr, ◌≢◌, [], ◌∷◌, none, some, Bytes, bytes_eq,
  bytes_eq_ne, Bool-cases, ◌⊎◌,
}
use realtime_data_center.Base.Int.{ℤ, pos, negsuc}
use realtime_data_center.Path.{PathNode, NodePath}
use realtime_data_center.Path.RoundTrip.{IsParsed}
use realtime_data_center.Value.{
  Value, Items, Fields, null, boolean, float, text, array, object, nil, cons, end, field, kind,
  lookup_field, set_field, get_item, set_item,
}
use realtime_data_center.Visitor.{VisitorW}
use realtime_data_center.Json.{ok, find, child, item_at, set_at, put, replace_child, write}
use realtime_data_center.Json.Descent.{Exists, find-child}
use realtime_data_center.Json.Write.{write-Fits}
use realtime_data_center.Json.Contract.{write_root}
use realtime_data_center.Json.Listing.{WellKeyed, WellKeyedFields}

set_field_self :
    (k : Bytes) (c : Value) (fs : Fields) → lookup_field k fs ≡ some c → set_field k c fs ≡ fs
unfolding lookup_field set_field
set_field_self k c end h = cc
set_field_self k c (field j v fs) h = elim (Bool-cases (bytes_eq j k)) [
  | inl e ↦ let same : v ≡ c = cc (rw e at h) in rw e (ap (λ u. field j u fs) (sym same))
  | inr e ↦ rw e (ap (field j v) (set_field_self k c fs (rw e at h)))
]

set_item_self : (i : ℕ) (c : Value) (xs : Items) → get_item xs i ≡ some c → set_item i c xs ≡ xs
unfolding get_item set_item
set_item_self i c nil h = cc
set_item_self zero c (cons v xs) h = let same : v ≡ c = cc h in ap (λ u. cons u xs) (sym same)
set_item_self (suc i) c (cons v xs) h = ap (cons v) (set_item_self i c xs h)

set_at_self : (xs : Items) (i : ℤ) (c : Value) → item_at xs i ≡ some c → set_at xs i c ≡ xs
unfolding item_at set_at
set_at_self xs (pos i) c h = set_item_self i c xs h
set_at_self xs (negsuc i) c h = refl

replace_child_self : (a : PathNode) (v c : Value) → child a v ≡ some c → replace_child a c v ≡ v
unfolding child replace_child
replace_child_self a (object fs) c h = elim (Bool-cases a.whether_array) [
  | inl e ↦ cc (rw e at h)
  | inr e ↦ ap object (set_field_self a.value c fs (rw e at h))
]
replace_child_self a (array xs) c h = elim (Bool-cases a.whether_array) [
  | inl e ↦ ap array (set_at_self xs a.array c (rw e at h))
  | inr e ↦ cc (rw e at h)
]
replace_child_self a null c h = cc
replace_child_self a (boolean b) c h = cc
replace_child_self a (float n) c h = cc
replace_child_self a (text s) c h = cc

put-find : (p : NodePath) (v : Value) → Exists v p → put p (find v p) v ≡ v
unfolding put find
put-find [] v h = refl
put-find (a ∷ p) v (c, e, h) =
    rw (e, put)
      (ap (λ x. replace_child a (put p x c) v) (find-child a p v c e)
        ∙ ap (λ x. replace_child a x v) (put-find p c h)
        ∙ replace_child_self a v c e)

no_empty_key : (fs : Fields) → WellKeyedFields fs → lookup_field [] fs ≡ none
unfolding lookup_field
no_empty_key end w = refl
no_empty_key (field k v fs) (((ne, _), _), _, _, ws) = rw (bytes_eq_ne k [] ne) (no_empty_key fs ws)

path_cases : (p : NodePath) → (p ≡ []) ⊎ (p ≢ [])
path_cases [] = inl refl
path_cases (a ∷ q) = inr (λ e. cc)

-- In a well-keyed tree that is a map, a write of what is found at a path that leads somewhere succeeds
-- and changes nothing.
pub write-find_self :
    (fs : Fields) (w : VisitorW)
    → WellKeyed (object fs)
    → IsParsed w.path
    → Exists (object fs) w.path
    → w.payload ≡ find (object fs) w.path
    → write (object fs) w ≡ ok (object fs)
write-find_self fs w keys parsed h same = elim (path_cases w.path) [
  | inl e ↦ write_root fs w e (no_empty_key fs keys)
  | inr ne ↦
      write-Fits (object fs) w parsed ne h (inr (ap kind (sym same)))
      ∙ ap (λ x. ok (put w.path x (object fs))) same
      ∙ ap ok (put-find w.path (object fs) h)
]

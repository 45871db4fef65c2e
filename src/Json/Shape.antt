-- ===== src/Json/Shape.antt =====
-- component/component.go: what no write changes at the top of the tree.
use realtime_data_center.Base.{
  ℕ, zero, suc, ◌≡◌, refl, sym, ap, subst, ◌∙◌, ◌⊎◌, inl, inr, ◌≢◌, false, [], ◌∷◌, Option, none,
  some, arith, Option-cases, Bool-cases, Bytes, bytes_eq, bytes_eq_iff,
}
use realtime_data_center.Base.Int.{ℤ, pos, negsuc}
use realtime_data_center.Path.{PathNode, NodePath, last, output2string}
use realtime_data_center.Path.RoundTrip.{IsParsed}
use realtime_data_center.Value.{
  Value, Items, Fields, Kind, null, boolean, float, text, array, object, nil, cons, kind, kind_eq,
  kind_eq_iff, lookup_field, set_field, count_items, set_item, is_nil,
}
use realtime_data_center.Value.Maps.{lookup_field-set_field}
use realtime_data_center.Visitor.{VisitorW}
use realtime_data_center.Json.{
  Outcome, ok, err, panic, find, child, put, set_at, replace_child, mismatch, store, store_key,
  place, write,
}
use realtime_data_center.Json.Descent.{Exists, find-child}
use realtime_data_center.Json.Store.{Fits}
use realtime_data_center.Json.Contract.{write-ok, ok-injective, father_nil}

abbrev pub kind_of : Option Value → Option Kind
kind_of none = none
kind_of (some v) = some (kind v)

abbrev pub key_kind : Bytes → Fields → Option Kind
key_kind k fs = kind_of (lookup_field k fs)

-- A tree of the same shape at the top: a map with the same keys, each with the same dynamic type; a
-- slice of the same length; or the same leaf.
abbrev pub SameShape : Value → Value → Type 0
SameShape (object fs) v =
    (gs : Fields) × (v ≡ object gs) × ((k : Bytes) → key_kind k gs ≡ key_kind k fs)
SameShape (array xs) v = (ys : Items) × (v ≡ array ys) × (count_items ys ≡ count_items xs)
SameShape leaf v = v ≡ leaf

pub SameShape-refl : (v : Value) → SameShape v v
SameShape-refl null = refl
SameShape-refl (boolean b) = refl
SameShape-refl (float n) = refl
SameShape-refl (text s) = refl
SameShape-refl (array xs) = (xs, refl, refl)
SameShape-refl (object fs) = (fs, refl, λ k. refl)

pub SameShape-trans : (u v w : Value) → SameShape u v → SameShape v w → SameShape u w
SameShape-trans null v w h k = subst (λ x. SameShape x w) h k
SameShape-trans (boolean b) v w h k = subst (λ x. SameShape x w) h k
SameShape-trans (float n) v w h k = subst (λ x. SameShape x w) h k
SameShape-trans (text s) v w h k = subst (λ x. SameShape x w) h k
SameShape-trans (array xs) v w (ys, e, same) k =
    let (zs, e', same') = subst (λ x. SameShape x w) e k in (zs, e', same' ∙ same)
SameShape-trans (object fs) v w (gs, e, same) k =
    let (hs, e', same') = subst (λ x. SameShape x w) e k in (hs, e', λ j. same' j ∙ same j)

key_kind-set_field :
    (k j : Bytes) (w old : Value) (fs : Fields)
    → lookup_field k fs ≡ some old
    → kind w ≡ kind old
    → key_kind j (set_field k w fs) ≡ key_kind j fs
key_kind-set_field k j w old fs h same = elim (Bool-cases (bytes_eq k j)) [
  | inl e ↦
      ap kind_of (lookup_field-set_field k j w fs h)
      ∙ rw e (ap some same ∙ sym (ap kind_of (rw ((bytes_eq_iff k j).0 e) at h)))
  | inr e ↦ ap kind_of (lookup_field-set_field k j w fs h) ∙ rw e
]

count_items-set_item :
    (i : ℕ) (w : Value) (xs : Items) → count_items (set_item i w xs) ≡ count_items xs
unfolding set_item
count_items-set_item i w nil = refl
count_items-set_item zero w (cons v xs) = refl
count_items-set_item (suc i) w (cons v xs) = ap suc (count_items-set_item i w xs)

count_items-set_at : (xs : Items) (i : ℤ) (w : Value) → count_items (set_at xs i w) ≡ count_items xs
unfolding set_at
count_items-set_at xs (pos i) w = count_items-set_item i w xs
count_items-set_at xs (negsuc i) w = refl

replace_child-SameShape :
    (a : PathNode) (v w c : Value)
    → child a v ≡ some c
    → (a.whether_array ≡ false → kind w ≡ kind c)
    → SameShape v (replace_child a w v)
unfolding child replace_child
replace_child-SameShape a (object fs) w c h same = elim (Bool-cases a.whether_array) [
  | inl e ↦ cc (rw e at h)
  | inr e ↦ (_, refl, λ k. key_kind-set_field a.value k w c fs (rw e at h) (same e))
]
replace_child-SameShape a (array xs) w c h same = (_, refl, count_items-set_at xs a.array w)
replace_child-SameShape a null w c h same = cc
replace_child-SameShape a (boolean b) w c h same = cc
replace_child-SameShape a (float n) w c h same = cc
replace_child-SameShape a (text s) w c h same = cc

kind-replace_child : (a : PathNode) (w v : Value) → kind (replace_child a w v) ≡ kind v
unfolding replace_child
kind-replace_child a w (object fs) = refl
kind-replace_child a w (array xs) = refl
kind-replace_child a w null = refl
kind-replace_child a w (boolean b) = refl
kind-replace_child a w (float n) = refl
kind-replace_child a w (text s) = refl

kind-put : (a : PathNode) (p : NodePath) (new v : Value) → kind (put (a ∷ p) new v) ≡ kind v
unfolding put
kind-put a p new v = elim (Option-cases (child a v)) [
  | inl e ↦ rw (e, put)
  | inr (c, e) ↦ rw (e, put) (kind-replace_child a (put p new c) v)
]

Fits-kind :
    (a : PathNode) (old new : Value)
    → Fits a old new
    → a.whether_array ≡ false
    → kind new ≡ kind old
Fits-kind a old new (inl h) s = cc
Fits-kind a old new (inr h) s = sym h

put-SameShape :
    (a : PathNode) (p : NodePath) (new v : Value)
    → Exists v (a ∷ p)
    → Fits (last (a ∷ p)) (find v (a ∷ p)) new
    → SameShape v (put (a ∷ p) new v)
unfolding put last find
put-SameShape a [] new v (c, e, h) f =
    rw (e, put)
      (replace_child-SameShape a v new c e
        (λ s. Fits-kind a (find v (a ∷ [])) new f s ∙ ap kind (find-child a [] v c e)))
put-SameShape a (b ∷ p) new v (c, e, h) f =
    rw (e, put) (replace_child-SameShape a v (put (b ∷ p) new c) c e (λ s. kind-put b p new c))

mismatch-not_ok : (p : NodePath) (v : Value) (a b : Kind) → mismatch p a b ≢ ok v
unfolding mismatch
mismatch-not_ok p v a b = ground arith

-- A write to the empty path sets the entry under the empty key, if there is one.
store_root : (d : Value) (v v' : Value) → store [] d v ≡ ok v' → SameShape v v'
unfolding store store_key last output2string bytes_eq
store_root d (object fs) v' e = elim (Option-cases (lookup_field [] fs)) [
  | inl n ↦
      subst (SameShape (object fs)) (ok-injective (rw (n, store_key) at e))
        (SameShape-refl (object fs))
  | inr (old, n) ↦ elim (Bool-cases (kind_eq (kind old) (kind d))) [
    | inl k ↦ subst (SameShape (object fs)) (ok-injective (rw (n, k, store_key) at e)) (
      _,
      refl,
      λ j. key_kind-set_field [] j d old fs n (sym ((kind_eq_iff (kind old) (kind d)).0 k)),
    )
    | inr k ↦ absurd (mismatch-not_ok [] v' (kind d) (kind old) (rw (n, k, store_key) at e))
  ]
]
store_root d (array xs) v' e = cc
store_root d null v' e = cc
store_root d (boolean b) v' e = cc
store_root d (float n) v' e = cc
store_root d (text s) v' e = cc

path_cases : (p : NodePath) → (p ≡ []) ⊎ ((a : PathNode) × (q : NodePath) × (p ≡ a ∷ q))
path_cases [] = inl refl
path_cases (a ∷ q) = inr (a, q, refl)

place_root : (v v' : Value) (d : Value) → place [] v (store [] d v) ≡ ok v' → store [] d v ≡ ok v'
unfolding place put
place_root v v' d e = go (store [] d v) e
  where
    go : (o : Outcome Value) → place [] v o ≡ ok v' → o ≡ ok v'
    go (ok new) h = h
    go (err x) h = cc
    go panic h = cc

root_written : (v v' : Value) (w : VisitorW) → w.path ≡ [] → write v w ≡ ok v' → SameShape v v'
unfolding write find
root_written v v' w n e = elim (Bool-cases (is_nil v)) [
  | inl h ↦ cc (rw (n, father_nil, h) at e)
  | inr h ↦ store_root w.payload v v' (place_root v v' w.payload (rw (n, father_nil, h) at e))
]

-- Whatever a write that succeeds writes, and where, the top of the tree keeps its shape.
pub write-SameShape :
    (v v' : Value) (w : VisitorW) → IsParsed w.path → write v w ≡ ok v' → SameShape v v'
unfolding write
write-SameShape v v' w parsed e = elim (path_cases w.path) [
  | inl n ↦ root_written v v' w n e
  | inr (a, q, n) ↦
      let (h, f, new) = write-ok v v' w parsed (λ z. cc (z, n)) e in
      subst (SameShape v) (sym (new ∙ ap (λ p. put p w.payload v) n)) (
        put-SameShape a q w.payload v (subst (Exists v) n h)
          (subst (λ p. Fits (last p) (find v p) w.payload) n f))
]

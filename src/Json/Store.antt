-- ===== src/Json/Store.antt =====
-- component/component.go: what `Write` makes of the map or slice that it found.
use realtime_data_center.Base.{
  ℕ, ◌<◌, ◌≡◌, refl, ◌⊎◌, inl, inr, ◌≢◌, true, false, [], none, some, arith, Bool-cases,
  bytes_eq_ne, ltb,
}
use realtime_data_center.Base.Int.{ℤ, pos, negsuc}
use realtime_data_center.Path.{father, PathNode, NodePath, last, output2string}
use realtime_data_center.Value.{
  Value, Items, null, boolean, float, text, array, object, kind, kind_eq_iff, is_dir, count_items,
}
use realtime_data_center.Value.Maps.{get_item-ne-none, get_item_lt}
use realtime_data_center.Json.{
  no_child, WriteError, Outcome, ok, err, child, item_at, set_at, replace_child, mismatch,
  store_key, store_index, store,
}

-- An index is not negative, as in every node that `Input` makes.
abbrev pub HasIndex : PathNode → Type 0
HasIndex a = a.whether_array ≡ true → (i : ℕ) × (a.array ≡ pos i)

abbrev pub IsError : Outcome Value → Type 0
IsError r = (e : WriteError) × (r ≡ err e)

-- The entry can be assigned: at a key of a map the new value must have the dynamic type of the old.
abbrev pub Fits : PathNode → Value → Value → Type 0
Fits a old new = (a.whether_array ≡ true) ⊎ (kind old ≡ kind new)

index_found :
    (xs : Items) (i : ℤ) {old : Value}
    → item_at xs i ≡ some old
    → (n : ℕ) × (i ≡ pos n) × (n < count_items xs)
unfolding item_at
index_found xs (pos n) {old} h = (n, refl, get_item_lt xs n {v = old} h)
index_found xs (negsuc n) h = cc

store_index_found :
    (p : NodePath) (d : Value) (xs : Items) (i : ℤ) {old : Value}
    → item_at xs i ≡ some old
    → store_index p d xs i ≡ ok (array (set_at xs i d))
unfolding item_at store_index set_at
store_index_found p d xs (pos n) {old} h = ground (arith, get_item_lt xs n {v = old} h)
store_index_found p d xs (negsuc n) h = cc

store_index_missing :
    (p : NodePath) (d : Value) (xs : Items) (i : ℤ)
    → (n : ℕ) × (i ≡ pos n)
    → item_at xs i ≡ none
    → IsError (store_index p d xs i)
unfolding item_at store_index
store_index_missing p d xs (pos n) _ h = elim (Bool-cases (ltb n (count_items xs))) [
  | inl below ↦ let (v, e) = get_item-ne-none xs n (ground arith) in cc (e, h)
  | inr above ↦ rw above (_, refl)
]
store_index_missing p d xs (negsuc n) (m, e) h = cc

-- An entry that is there and fits is replaced.
pub store-Fits :
    (p : NodePath) (d ptr old : Value)
    → child (last p) ptr ≡ some old
    → Fits (last p) old d
    → store p d ptr ≡ ok (replace_child (last p) d ptr)
unfolding store store_key child replace_child
store-Fits p d (object fs) old h f = ground (arith, kind_eq_iff (kind old) (kind d))
store-Fits p d (array xs) old h f =
    ground (arith, store_index_found p d xs (last p).array {old = old})
store-Fits p d null old h f = cc
store-Fits p d (boolean b) old h f = cc
store-Fits p d (float n) old h f = cc
store-Fits p d (text s) old h f = cc

-- A key of a map refuses a value of another dynamic type.
pub store-mismatch :
    (p : NodePath) (d ptr old : Value)
    → child (last p) ptr ≡ some old
    → (last p).whether_array ≡ false
    → kind old ≢ kind d
    → store p d ptr ≡ mismatch p (kind d) (kind old)
unfolding store store_key child
store-mismatch p d (object fs) old h s f = ground (arith, kind_eq_iff (kind old) (kind d))
store-mismatch p d (array xs) old h s f = ground arith
store-mismatch p d null old h s f = cc
store-mismatch p d (boolean b) old h s f = cc
store-mismatch p d (float n) old h s f = cc
store-mismatch p d (text s') old h s f = cc

leaf-IsError : (p : NodePath) (d v : Value) → is_dir v ≡ false → IsError (store p d v)
unfolding store
leaf-IsError p d (object fs) h = cc
leaf-IsError p d (array xs) h = cc
leaf-IsError p d null h = elim (Bool-cases (last p).whether_array) [
  | inl e ↦ rw (e, store) (_, refl)
  | inr e ↦ rw (e, store) (_, refl)
]
leaf-IsError p d (boolean b) h = elim (Bool-cases (last p).whether_array) [
  | inl e ↦ rw (e, store) (_, refl)
  | inr e ↦ rw (e, store) (_, refl)
]
leaf-IsError p d (float n) h = elim (Bool-cases (last p).whether_array) [
  | inl e ↦ rw (e, store) (_, refl)
  | inr e ↦ rw (e, store) (_, refl)
]
leaf-IsError p d (text s) h = elim (Bool-cases (last p).whether_array) [
  | inl e ↦ rw (e, store) (_, refl)
  | inr e ↦ rw (e, store) (_, refl)
]

-- An entry that is not there is refused, at every path with a text.
pub store_missing :
    (p : NodePath) (d ptr : Value)
    → child (last p) ptr ≡ none
    → output2string p ≢ []
    → HasIndex (last p)
    → IsError (store p d ptr)
unfolding store store_key child
store_missing p d (object fs) h t ix = elim (Bool-cases (last p).whether_array) [
  | inl e ↦ rw (e, store) (_, refl)
  | inr e ↦ (
    no_child (father p) (last p).value p,
    rw (e, store) (rw ((rw e at h), store_key) (rw (bytes_eq_ne (output2string p) [] t))),
  )
]
store_missing p d (array xs) h t ix = elim (Bool-cases (last p).whether_array) [
  | inl e ↦ rw (e, store) (store_index_missing p d xs (last p).array (ix e) (rw e at h))
  | inr e ↦ rw (e, store) (_, refl)
]
store_missing p d null h t ix = leaf-IsError p d null refl
store_missing p d (boolean b) h t ix = leaf-IsError p d (boolean b) refl
store_missing p d (float n) h t ix = leaf-IsError p d (float n) refl
store_missing p d (text s) h t ix = leaf-IsError p d (text s) refl

-- ===== src/Value/Maps.antt =====
-- Reading a map or a slice after one of its entries is assigned.
use realtime_data_center.Base.{
  ℕ, zero, suc, ◌<◌, ◌≡◌, refl, some, arith, if◌then◌else◌, ◌==◌, Bytes, bytes_eq, bytes_eq_iff,
}
use realtime_data_center.Value.{
  Value, Items, Fields, nil, cons, end, field, lookup_field, set_field, count_items, get_item,
  set_item,
}

pub lookup_field-set_field :
    (k j : Bytes) (w : Value) (fs : Fields) {old : Value}
    → lookup_field k fs ≡ some old
    → lookup_field j (set_field k w fs) ≡ (if bytes_eq k j then some w else lookup_field j fs)
unfolding lookup_field set_field
lookup_field-set_field k j w end {old} h = cc
lookup_field-set_field k j w (field i v fs) {old} h = ground (
  arith,
  bytes_eq_iff k j,
  bytes_eq_iff i k,
  bytes_eq_iff i j,
  lookup_field-set_field k j w fs {old = old},
)

pub get_item-set_item :
    (i j : ℕ) (w : Value) (xs : Items) {old : Value}
    → get_item xs i ≡ some old
    → get_item (set_item i w xs) j ≡ (if i == j then some w else get_item xs j)
unfolding get_item set_item
get_item-set_item i j w nil {old} h = cc
get_item-set_item zero zero w (cons v xs) {old} h = refl
get_item-set_item zero (suc j) w (cons v xs) {old} h = ground arith
get_item-set_item (suc i) zero w (cons v xs) {old} h = ground arith
get_item-set_item (suc i) (suc j) w (cons v xs) {old} h =
    ground (arith, get_item-set_item i j w xs {old = old})

pub get_item-ne-none :
    (xs : Items) (i : ℕ) → i < count_items xs → (v : Value) × (get_item xs i ≡ some v)
unfolding get_item
get_item-ne-none nil i h = elim h [ ]
get_item-ne-none (cons v xs) zero h = (v, refl)
get_item-ne-none (cons v xs) (suc i) h = get_item-ne-none xs i (omega arith)

pub get_item_lt : (xs : Items) (i : ℕ) {v : Value} → get_item xs i ≡ some v → i < count_items xs
unfolding get_item
get_item_lt nil i h = cc
get_item_lt (cons v xs) zero h = omega arith
get_item_lt (cons v xs) (suc i) h = omega (arith, get_item_lt xs i h)

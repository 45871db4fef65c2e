-- ===== src/Json/Listing.antt =====
-- component/component.go: the paths that `IterAllPath` lists.
use realtime_data_center.Base.{
  ℕ, suc, ◌+◌, ◌≤◌, ◌≡◌, refl, sym, ◌∙◌, ap, subst, true, false, [], ◌∷◌, ◌++◌, none, some, arith,
  Bytes, bytes_eq_iff, bytes_eq_refl, decimal, All, All-append,
}
use realtime_data_center.Base.Int.{pos}
use realtime_data_center.Golib.Strconv.{max_int}
use realtime_data_center.Golib.Strings.{split}
use realtime_data_center.Golib.Decimal.{
  decimal-IsDigit, decimal-ne-nil, value_from-decimal, IsDigit-Lacks,
}
use realtime_data_center.Path.{zero_node, input_from_string, whether_number_string}
use realtime_data_center.Path.Segments.{
  node_of, IsSegment, input_lem, name-input, whether_array-input,
}
use realtime_data_center.Path.RoundTrip.{input_from_string-append, input_from_string_segment}
use realtime_data_center.Value.{
  Value, Items, Fields, null, boolean, float, text, array, object, nil, cons, end, field,
  lookup_field, get_item, count_items,
}
use realtime_data_center.Json.{find, child, item_at}
use realtime_data_center.Json.Descent.{Exists, find-append, find-child}
use realtime_data_center.Json.Write.{Exists-append}
use realtime_data_center.Json.Nodes.{iter_all_path, iter_items, iter_fields}

-- Keys that a path can name: segments that are not taken for an index.
abbrev pub IsKey : Bytes → Type 0
IsKey k = IsSegment k × (whether_number_string k ≡ false)

-- A tree whose maps have such keys, each once, and whose slices are no longer than an int can count.
abbrev mutual
  pub WellKeyed : Value → Type 0
  WellKeyed null = Unit {0}
  WellKeyed (boolean b) = Unit {0}
  WellKeyed (float n) = Unit {0}
  WellKeyed (text s) = Unit {0}
  WellKeyed (array xs) = (count_items xs ≤ max_int) × WellKeyedItems xs
  WellKeyed (object fs) = WellKeyedFields fs

  pub WellKeyedItems : Items → Type 0
  WellKeyedItems nil = Unit {0}
  WellKeyedItems (cons v xs) = WellKeyed v × WellKeyedItems xs

  pub WellKeyedFields : Fields → Type 0
  WellKeyedFields end = Unit {0}
  WellKeyedFields (field k v fs) =
      IsKey k × (lookup_field k fs ≡ none) × WellKeyed v × WellKeyedFields fs

-- The path that a text names leads to the value.
abbrev Leads : Value → Bytes → Value → Type 0
Leads root road v = Exists root (input_from_string road) × (find root (input_from_string road) ≡ v)

Leads-child :
    (root : Value) (road k : Bytes) (v c : Value)
    → IsSegment k
    → child (node_of k) v ≡ some c
    → Leads root road v
    → Leads root (road ++ b'/' ∷ k) c
Leads-child root road k v c seg e (h, f) =
    subst (λ p. Exists root p × (find root p ≡ c)) (sym path)
      (
        Exists-append root _ (node_of k ∷ []) h there,
        find-append root _ (node_of k ∷ []) h
            ∙ ap (λ u. find u (node_of k ∷ [])) f
            ∙ find-child (node_of k) [] v c e
            ∙ unfold find in refl,
      )
  where
    path : input_from_string (road ++ b'/' ∷ k) ≡ input_from_string road ++ node_of k ∷ []
    path =
        input_from_string-append road k
        ∙ ap (λ q. input_from_string road ++ q) (input_from_string_segment k seg)

    there : Exists (find root (input_from_string road)) (node_of k ∷ [])
    there = (c, ap (child (node_of k)) f ∙ e, tt)

child_key :
    (k : Bytes) (fs : Fields) {c : Value}
    → whether_number_string k ≡ false
    → lookup_field k fs ≡ some c
    → child (node_of k) (object fs) ≡ some c
unfolding child
child_key k fs h e = rw (whether_array-input zero_node k, h, name-input zero_node k) e

index_array :
    (i : ℕ)
    → i ≤ max_int
    → ((node_of (decimal i)).whether_array ≡ true) × ((node_of (decimal i)).array ≡ pos i)
index_array i h =
    let (_, arr, num, _) = input_lem zero_node (decimal i) in
    let is_array = arr.1 (decimal-ne-nil i, decimal-IsDigit i) in
    (is_array, num is_array ∙ ap pos (omega (arith, value_from-decimal i)))

child_index :
    (i : ℕ) (xs : Items) {c : Value}
    → i ≤ max_int
    → get_item xs i ≡ some c
    → child (node_of (decimal i)) (array xs) ≡ some c
unfolding child item_at
child_index i xs h e = let (a, n) = index_array i h in rw (a, n) e

decimal-IsSegment : (i : ℕ) → IsSegment (decimal i)
decimal-IsSegment i = (decimal-ne-nil i, IsDigit-Lacks (decimal i) (decimal-IsDigit i))

item_zero : (xs : Items) (i : ℕ) {v : Value} → some v ≡ get_item xs (i + 0) → get_item xs i ≡ some v
item_zero xs i h = let e : i ≡ i + 0 = omega arith in ap (get_item xs) e ∙ sym h

lookup_later :
    (k j : Bytes) (v : Value) (fs : Fields) {c : Value}
    → lookup_field k fs ≡ none
    → lookup_field j fs ≡ some c
    → lookup_field j (field k v fs) ≡ some c
unfolding lookup_field
lookup_later k j v fs h e = ground (arith, bytes_eq_iff k j)

mutual
  unfolding iter_all_path lookup_field get_item

  listed :
      (v root : Value) (road : Bytes)
      → WellKeyed v
      → Leads root road v
      → All (λ t. Exists root (input_from_string t)) (iter_all_path road v)
  listed null root road w h = (h.0, tt)
  listed (boolean b) root road w h = (h.0, tt)
  listed (float n) root road w h = (h.0, tt)
  listed (text s) root road w h = (h.0, tt)
  listed (array xs) root road w h = (
    h.0,
    listed_items xs root road 0 xs w.1 h (omega arith)
        (λ j. let e : j ≡ 0 + j = omega arith in ap (get_item xs) e),
  )
  listed (object fs) root road w h = (h.0, listed_fields fs root road fs w h (λ k c e. e))

  listed_items :
      (ys : Items) (root : Value) (road : Bytes) (i : ℕ) (xs : Items)
      → WellKeyedItems ys
      → Leads root road (array xs)
      → i + count_items ys ≤ max_int
      → ((j : ℕ) → get_item ys j ≡ get_item xs (i + j))
      → All (λ t. Exists root (input_from_string t)) (iter_items road i ys)
  listed_items nil root road i xs w h m same = tt
  listed_items (cons v ys) root road i xs w h m same =
      All-append _ (iter_all_path (road ++ b'/' ∷ decimal i) v) (iter_items road (i + 1) ys)
        (listed v root (road ++ b'/' ∷ decimal i) w.0 (
          Leads-child root road (decimal i) (array xs) v (decimal-IsSegment i)
            (child_index i xs (omega arith) (item_zero xs i (same 0))) h))
        (listed_items ys root road (i + 1) xs w.1 h (omega arith)
          (λ j. let e : i + suc j ≡ i + 1 + j = omega arith in same (suc j) ∙ ap (get_item xs) e))

  listed_fields :
      (gs : Fields) (root : Value) (road : Bytes) (fs : Fields)
      → WellKeyedFields gs
      → Leads root road (object fs)
      → ((k : Bytes) (c : Value) → lookup_field k gs ≡ some c → lookup_field k fs ≡ some c)
      → All (λ t. Exists root (input_from_string t)) (iter_fields road gs)
  listed_fields end root road fs w h sub = tt
  listed_fields (field k v gs) root road fs w h sub =
      All-append _ (iter_all_path (road ++ b'/' ∷ k) v) (iter_fields road gs)
        (listed v root (road ++ b'/' ∷ k) w.2 (
          Leads-child root road k (object fs) v w.0.0
            (child_key k fs w.0.1 (sub k v (rw bytes_eq_refl))) h))
        (listed_fields gs root road fs w.3 h (λ j c e. sub j c (lookup_later k j v gs w.1 e)))

-- Every path that `IterAllPath` lists from the root of a well-keyed tree leads to a value of it.
pub iter_all_path-Exists :
    (v : Value) → WellKeyed v → All (λ t. Exists v (input_from_string t)) (iter_all_path [] v)
iter_all_path-Exists v w = listed v v [] w (unfold input_from_string split find in (tt, refl))

-- ===== src/Json/Contract.antt =====
-- component/component.go: what `Write` and `Read` promise about paths.
use realtime_data_center.Base.{
  bytes_eq, ℕ, ◌≡◌, refl, sym, ◌∙◌, ap, subst, ◌⊎◌, inl, inr, ◌≢◌, ◌↔◌, true, false, [], ◌∷◌, ◌++◌,
  none, some, arith, Option-cases, Bool-cases, Bytes, append-nil,
}
use realtime_data_center.Path.{PathNode, NodePath, father, last, output2string}
use realtime_data_center.Path.RoundTrip.{IsParsed}
use realtime_data_center.Path.Family.{father-last}
use realtime_data_center.Value.{
  Value, Fields, Kind, null, object, nil_type, kind, kind_eq, kind_eq_iff, is_nil, is_dir,
  lookup_field,
}
use realtime_data_center.Value.Marshal.{marshal-ne-nil}
use realtime_data_center.Visitor.{VisitorW, VisitorBasicType}
use realtime_data_center.Json.{
  ok, err, panic, type_mismatch, find, child, put, mismatch, store, store_key, place, write, read,
}
use realtime_data_center.Json.Descent.{Exists, find-append, find_stuck}
use realtime_data_center.Json.Put.{find-put_below, find-put_ne, Diverge}
use realtime_data_center.Json.Store.{IsError, Fits}
use realtime_data_center.Json.Write.{write-Fits, write-mismatch, write_missing}

some_inj : {a b : Value} → some a ≡ some b → a ≡ b
some_inj h = cc

dec_Exists : (v : Value) (p : NodePath) → Dec (Exists v p)
dec_Exists v [] = yes tt
dec_Exists v (a ∷ p) = elim (Option-cases (child a v)) [
  | inl e ↦ no (λ h. cc (e, h.1))
  | inr (c, e) ↦ elim (dec_Exists c p) [
    | yes h ↦ yes (c, e, h)
    | no h ↦ no (λ k. h (subst (λ u. Exists u p) (some_inj (sym k.1 ∙ e)) k.2))
  ]
]

dec_Fits :
    (a : PathNode) (old new : Value)
    → Fits a old new ⊎ ((a.whether_array ≡ false) × (kind old ≢ kind new))
dec_Fits a old new = elim (Bool-cases a.whether_array) [
  | inl e ↦ inl (inl e)
  | inr e ↦ elim (Bool-cases (kind_eq (kind old) (kind new))) [
    | inl k ↦ inl (inr ((kind_eq_iff (kind old) (kind new)).0 k))
    | inr k ↦ inr (e, λ q. cc (k, (kind_eq_iff (kind old) (kind new)).1 q))
  ]
]

-- One of the two is the nil type, and not both.
abbrev pub OneNil : Kind → Kind → Type 0
OneNil a b = ((a ≡ nil_type) × (b ≢ nil_type)) ⊎ ((a ≢ nil_type) × (b ≡ nil_type))

mismatch_nil : (p : NodePath) (a b : Kind) → OneNil a b → mismatch p b a ≡ panic
unfolding mismatch
mismatch_nil p a b h = ground arith

mismatch_typed :
    (p : NodePath) (a b : Kind)
    → a ≢ nil_type
    → b ≢ nil_type
    → mismatch p b a ≡ err (type_mismatch p b a)
unfolding mismatch
mismatch_typed p a b h k = ground arith

ne_nil : {a b : Kind} → OneNil a b → a ≢ b
ne_nil (inl h) e = h.1 (sym e ∙ h.0)
ne_nil (inr h) e = h.0 (e ∙ h.1)

-- A write at a parsed path that is not empty has four outcomes. Where the path leads to an entry, and
-- the entry is an array element or has the dynamic type of the new value, the tree with the new value
-- at the path. At a map key of another dynamic type, the type error if neither value is nil, and a
-- panic if exactly one of them is. Where the path leads nowhere, an error.
pub write_branches :
    (v : Value) (w : VisitorW)
    → IsParsed w.path
    → w.path ≢ []
    → (Exists v w.path
        → Fits (last w.path) (find v w.path) w.payload
        → write v w ≡ ok (put w.path w.payload v))
      × (Exists v w.path
          → (last w.path).whether_array ≡ false
          → kind (find v w.path) ≢ kind w.payload
          → kind (find v w.path) ≢ nil_type
          → kind w.payload ≢ nil_type
          → write v w ≡ err (type_mismatch w.path (kind w.payload) (kind (find v w.path))))
      × (Exists v w.path
          → (last w.path).whether_array ≡ false
          → OneNil (kind (find v w.path)) (kind w.payload)
          → write v w ≡ panic)
      × (¬ Exists v w.path → IsError (write v w))
unfolding place
write_branches v w parsed ne = (
  write-Fits v w parsed ne,
  λ h s k a b.
      write-mismatch v w parsed ne h s k
      ∙ ap (place (father w.path) v)
          (mismatch_typed w.path (kind (find v w.path)) (kind w.payload) a b),
  λ h s o.
      write-mismatch v w parsed ne h s (ne_nil o)
      ∙ ap (place (father w.path) v)
          (mismatch_nil w.path (kind (find v w.path)) (kind w.payload) o),
  write_missing v w parsed ne,
)

mismatch-not_ok : (p f : NodePath) (v v' : Value) (a b : Kind) → place f v (mismatch p a b) ≢ ok v'
unfolding mismatch place
mismatch-not_ok p f v v' a b = ground arith

pub ok-injective : {a b : Value} → ok a ≡ ok b → a ≡ b
ok-injective h = cc

-- A write that succeeds found an entry that the new value fits.
pub write-ok :
    (v v' : Value) (w : VisitorW)
    → IsParsed w.path
    → w.path ≢ []
    → write v w ≡ ok v'
    → Exists v w.path × Fits (last w.path) (find v w.path) w.payload × (v' ≡ put w.path w.payload v)
write-ok v v' w parsed ne e = elim (dec_Exists v w.path) [
  | no h ↦ let (why, r) = write_missing v w parsed ne h in cc (e, r)
  | yes h ↦ elim (dec_Fits (last w.path) (find v w.path) w.payload) [
    | inl f ↦ (h, f, ok-injective (sym e ∙ write-Fits v w parsed ne h f))
    | inr (s, k) ↦ absurd (
        mismatch-not_ok w.path (father w.path) v v' (kind w.payload) (kind (find v w.path))
          (sym (write-mismatch v w parsed ne h s k) ∙ e))
  ]
]

-- After a successful write at a parsed path that is not empty, the path and every path below it find
-- what they find in the new value; every path that parts ways with it finds what it found before;
-- and an entry of a map keeps its dynamic type.
pub write-find :
    (v v' : Value) (w : VisitorW)
    → IsParsed w.path
    → w.path ≢ []
    → write v w ≡ ok v'
    → ((q : NodePath) → find v' (w.path ++ q) ≡ find w.payload q)
      × ((q : NodePath) → Diverge w.path q → find v' q ≡ find v q)
      × ((last w.path).whether_array ≡ false → kind (find v' w.path) ≡ kind (find v w.path))
write-find v v' w parsed ne e =
    let (h, f, new) = write-ok v v' w parsed ne e in
    (
      (λ q. rw new (find-put_below w.path q w.payload v h)),
      (λ q d. rw new (find-put_ne w.path q w.payload v h d)),
      (λ s. rw new (kept h f s)),
    )
  where
    found : Exists v w.path → find (put w.path w.payload v) w.path ≡ w.payload
    found h =
        ap (find (put w.path w.payload v)) (sym (append-nil w.path))
        ∙ find-put_below w.path [] w.payload v h
        ∙ unfold find in refl

    kept :
        Exists v w.path
        → Fits (last w.path) (find v w.path) w.payload
        → (last w.path).whether_array ≡ false
        → kind (find (put w.path w.payload v) w.path) ≡ kind (find v w.path)
    kept h (inl a) s = cc (a, s)
    kept h (inr k) s = ap kind (found h) ∙ sym k

pub father_nil : father [] ≡ []
father_nil = ((father-last []).1 refl).0

store_root :
    (d : Value) (fs : Fields) → lookup_field [] fs ≡ none → store [] d (object fs) ≡ ok (object fs)
unfolding store store_key last output2string bytes_eq
store_root d fs h = rw (h, store_key) refl

-- A write to the empty path of a tree that is a map with no empty key reports success and changes
-- nothing, whatever the new value is.
pub write_root :
    (fs : Fields) (w : VisitorW)
    → w.path ≡ []
    → lookup_field [] fs ≡ none
    → write (object fs) w ≡ ok (object fs)
unfolding write find place put
write_root fs w e h = rw (e, write, father_nil, store_root w.payload fs h)

not_dir-child : (a : PathNode) (v : Value) → is_dir v ≡ false → child a v ≡ none
unfolding child
not_dir-child a v h = ground arith

-- Behind a leaf every path that goes on with a node that is no array index finds the leaf again.
pub find_past_leaf :
    (v : Value) (p q : NodePath) (a : PathNode)
    → Exists v p
    → is_dir (find v p) ≡ false
    → a.whether_array ≡ false
    → find v (p ++ a ∷ q) ≡ find v p
find_past_leaf v p q a h leaf s =
    find-append v p (a ∷ q) h
    ∙ find_stuck a q (find v p) (not_dir-child a (find v p) leaf)
    ∙ rw (leaf, s)

is_nil-null : (v : Value) → is_nil v ≡ true → v ≡ null
is_nil-null v h = ground arith

-- Where a number has a text, what is read is empty exactly when nothing, or nil, is found.
pub read_nil_iff :
    (float_text : ℕ → Bytes) (v : Value) (visitor : VisitorBasicType)
    → ((n : ℕ) → float_text n ≢ [])
    → (read float_text v visitor ≡ []) ↔ (find v visitor.path ≡ null)
unfolding read
read_nil_iff float_text v visitor h = elim (Bool-cases (is_nil (find v visitor.path))) [
  | inl e ↦ ((λ _. is_nil-null _ e), λ _. rw (e, read))
  | inr e ↦ (
    (λ r. absurd (marshal-ne-nil float_text h (find v visitor.path) (rw (e, read) at r))),
    λ r. cc (e, ap is_nil r),
  )
]

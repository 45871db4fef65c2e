-- ===== src/Json/Write.antt =====
-- component/component.go: the branches of `Write`, as a description by `Exists` and `put`.
use realtime_data_center.Base.{
  ◌≡◌, refl, sym, ◌∙◌, ap, subst, inl, inr, ◌≢◌, true, false, [], ◌∷◌, ◌++◌, none, some, arith,
  Option-cases, Bool-cases,
}
use realtime_data_center.Path.{PathNode, NodePath, father, last, output2string, input_from_string}
use realtime_data_center.Path.RoundTrip.{IsParsed, input_from_string-output2string}
use realtime_data_center.Path.Family.{father-last, last-HasIndex}
use realtime_data_center.Golib.Strings.{split}
use realtime_data_center.Value.{Value, kind, is_nil, is_dir}
use realtime_data_center.Visitor.{VisitorW}
use realtime_data_center.Json.{
  Outcome, ok, not_found, find, child, replace_child, put, mismatch, store, place, write,
}
use realtime_data_center.Json.Descent.{Exists, is_dir-find, find-append, find-child}
use realtime_data_center.Json.Put.{child-is_dir, put-some}
use realtime_data_center.Json.Store.{IsError, Fits, store-Fits, store-mismatch, store_missing}

pub Exists-append :
    (v : Value) (p q : NodePath) → Exists v p → Exists (find v p) q → Exists v (p ++ q)
Exists-append v [] q _ h = unfold find in h
Exists-append v (a ∷ p) q (c, e, hp) h =
    (c, e, Exists-append c p q hp (subst (λ u. Exists u q) (find-child a p v c e) h))

pub Exists-split :
    (v : Value) (p q : NodePath) → Exists v (p ++ q) → Exists v p × Exists (find v p) q
Exists-split v [] q h = (tt, unfold find in h)
Exists-split v (a ∷ p) q (c, e, h) =
    let (hp, hq) = Exists-split c p q h in
    ((c, e, hp), subst (λ u. Exists u q) (sym (find-child a p v c e)) hq)

pub put-append :
    (v w : Value) (p q : NodePath) → Exists v p → put p (put q w (find v p)) v ≡ put (p ++ q) w v
put-append v w [] q _ = unfold find put in refl
put-append v w (a ∷ p) q (c, e, h) =
    put-some a p _ v c e
    ∙ ap (λ u. replace_child a u v)
        (ap (λ u. put p (put q w u) c) (find-child a p v c e) ∙ put-append c w p q h)
    ∙ sym (put-some a (p ++ q) w v c e)

-- What `store` did at the place where the father's map or slice stands.
place-Exists :
    (v d ptr' : Value) (f : NodePath) (a : PathNode)
    → Exists v f
    → (c : Value) × (child a (find v f) ≡ some c)
    → ptr' ≡ replace_child a d (find v f)
    → put f ptr' v ≡ put (f ++ a ∷ []) d v
place-Exists v d ptr' f a h (c, e) new =
    ap (λ u. put f u v)
      (new
        ∙ sym (
            put-some a [] d (find v f) c e
            ∙ ap (λ u. replace_child a u (find v f)) (unfold put in refl)))
    ∙ put-append v d f (a ∷ []) h

is_nil-is_dir : (v : Value) → is_dir v ≡ true → is_nil v ≡ false
is_nil-is_dir v h = ground arith

-- The three ways in which a write of a parsed path that is not empty can go.
module _ (v : Value) (w : VisitorW) (parsed : IsParsed w.path) (ne : w.path ≢ []) where
  whole : father w.path ++ last w.path ∷ [] ≡ w.path
  whole = (father-last w.path).0 ne

  output-ne-nil : output2string w.path ≢ []
  output-ne-nil e = ne (
      sym (input_from_string-output2string w.path parsed)
      ∙ ap input_from_string e
      ∙ unfold input_from_string split in refl)

  father_value : Value
  father_value = find v (father w.path)

  -- The entry that is written, as an entry of its father.
  entry :
      Exists v w.path
      → Exists v (father w.path) × (child (last w.path) father_value ≡ some (find v w.path))
  unfolding father_value
  entry h =
      let (hf, (c, e, _)) =
        Exists-split v (father w.path) (last w.path ∷ []) (subst (Exists v) (sym whole) h) in
      let found : find v w.path ≡ c =
        ap (find v) (sym whole)
        ∙ find-append v (father w.path) (last w.path ∷ []) hf
        ∙ find-child (last w.path) [] father_value c e
        ∙ unfold find in refl in
      (hf, e ∙ ap some (sym found))

  entry-none : ¬ Exists v w.path → child (last w.path) father_value ≡ none
  unfolding father_value
  entry-none h = elim (Option-cases (child (last w.path) father_value)) [
    | inl e ↦ e
    | inr (c, e) ↦
        let hf = is_dir-find v (father w.path) (child-is_dir (last w.path) father_value c e) in
        absurd (
          h (
            subst (Exists v) whole
              (Exists-append v (father w.path) (last w.path ∷ []) hf (c, e, tt))))
  ]

  store_result : Outcome Value
  store_result = store w.path w.payload father_value

  write-place : is_nil father_value ≡ false → write v w ≡ place (father w.path) v store_result
  unfolding write father_value store_result
  write-place h = rw (h, write)

  write-entry : Exists v w.path → write v w ≡ place (father w.path) v store_result
  write-entry h =
      write-place
        (is_nil-is_dir father_value (child-is_dir (last w.path) father_value _ (entry h).1))

  pub write-Fits :
      Exists v w.path
      → Fits (last w.path) (find v w.path) w.payload
      → write v w ≡ ok (put w.path w.payload v)
  unfolding store_result place father_value
  write-Fits h f =
      let (hf, e) = entry h in
      write-entry h
      ∙ ap (place (father w.path) v) (store-Fits w.path w.payload father_value _ e f)
      ∙ ap ok (
          place-Exists v w.payload _ (father w.path) (last w.path) hf (_, e) refl
          ∙ ap (λ p. put p w.payload v) whole)

  pub write-mismatch :
      Exists v w.path
      → (last w.path).whether_array ≡ false
      → kind (find v w.path) ≢ kind w.payload
      → write v w
        ≡ place (father w.path) v (mismatch w.path (kind w.payload) (kind (find v w.path)))
  unfolding store_result
  write-mismatch h s k =
      write-entry h
      ∙ ap (place (father w.path) v)
          (store-mismatch w.path w.payload father_value _ (entry h).1 s k)

  pub write_missing : ¬ Exists v w.path → IsError (write v w)
  unfolding write place store_result father_value
  write_missing h = elim (Bool-cases (is_nil father_value)) [
    | inl e ↦ (not_found (father w.path), rw (e, write))
    | inr e ↦
        let (why, r) =
          store_missing w.path w.payload father_value (entry-none h) output-ne-nil
            (last-HasIndex w.path parsed ne) in
        (why, write-place e ∙ ap (place (father w.path) v) r)
  ]

-- ===== src/Affect/Contain.antt =====
-- component/affectboundary.go: `WhetherContain` on texts and on paths.
use realtime_data_center.Base.{
  ◌≤◌, ◌≡◌, refl, sym, ap, ◌∙◌, ◌↔◌, ◌⊎◌, inl, inr, true, false, List, [], ◌∷◌, ◌++◌, map,
  append-nil, append_assoc, arith, ltb, length, length-append, Bytes, Bool-cases, ltb→lt,
}
use mathlib.Core.List.{map-append}
use realtime_data_center.Path.{NodePath, name, output2string}
use realtime_data_center.Path.Segments.{slashed, join, output2string_lem, node_of, name-input}
use realtime_data_center.Affect.{contain_loop, whether_contain}

-- One text begins with the other.
abbrev pub Begins : Bytes → Bytes → Type 0
Begins b a = (rest : Bytes) × (b ≡ a ++ rest)

loop_left : (a b : Bytes) → length a ≤ length b → (contain_loop (length a) a b ≡ true) ↔ Begins b a
unfolding contain_loop
loop_left [] b h = ((λ _. (b, refl)), λ _. refl)
loop_left (x ∷ a) [] h = elim h [ ]
loop_left (x ∷ a) (y ∷ b) h =
    let (to, from) = loop_left a b (omega arith) in
    (
      (λ e. let (r, p) = to (ground arith) in (r, ground (arith, p))),
      λ s. ground (arith, from (s.0, ground arith)),
    )

loop_right : (a b : Bytes) → length b ≤ length a → (contain_loop (length b) a b ≡ true) ↔ Begins a b
unfolding contain_loop
loop_right a [] h = ((λ _. (a, refl)), λ _. refl)
loop_right [] (y ∷ b) h = elim h [ ]
loop_right (x ∷ a) (y ∷ b) h =
    let (to, from) = loop_right a b (omega arith) in
    (
      (λ e. let (r, p) = to (ground arith) in (r, ground (arith, p))),
      λ s. ground (arith, from (s.0, ground arith)),
    )

Begins-length : (a b : Bytes) → Begins b a → length a ≤ length b
Begins-length a b (r, e) = omega (arith, ap length e, length-append a r)

same_length : (a b : Bytes) → Begins a b → length a ≤ length b → Begins b a
same_length a b ([], e) h = ([], sym (append-nil a ∙ e ∙ append-nil b))
same_length a b (x ∷ r, e) h = absurd (omega (arith, ap length e, length-append b (x ∷ r)))

-- Two texts contain one another, for the program, exactly when one begins with the other.
pub whether_contain_iff : (a b : Bytes) → (whether_contain a b ≡ true) ↔ (Begins b a ⊎ Begins a b)
unfolding whether_contain
whether_contain_iff a b = elim (Bool-cases (ltb (length b) (length a))) [
  | inl less ↦ (
    λ h. inr ((loop_right a b (omega (arith, ltb→lt))).0 (contain_right less h)),
    elim [
      | inl s ↦ absurd (omega (arith, ltb→lt, Begins-length a b s))
      | inr s ↦ rw (less, whether_contain) ((loop_right a b (omega (arith, ltb→lt))).1 s)
    ],
  )
  | inr more ↦ (
    λ h. inl ((loop_left a b (not_less more)).0 (contain_left more h)),
    elim [
      | inl s ↦ rw (more, whether_contain) ((loop_left a b (not_less more)).1 s)
      | inr s ↦
          rw (more, whether_contain)
            ((loop_left a b (not_less more)).1 (same_length a b s (not_less more)))
    ],
  )
]
  where
    contain_right :
        ltb (length b) (length a) ≡ true
        → whether_contain a b ≡ true
        → contain_loop (length b) a b ≡ true
    contain_right less h = ground arith

    contain_left :
        ltb (length b) (length a) ≡ false
        → whether_contain a b ≡ true
        → contain_loop (length a) a b ≡ true
    contain_left more h = ground arith

    not_less : ltb (length b) (length a) ≡ false → length a ≤ length b
    not_less more = ground arith

slashed-append : (ss ts : List Bytes) → slashed (ss ++ ts) ≡ slashed ss ++ slashed ts
unfolding slashed
slashed-append [] ts = refl
slashed-append (s ∷ ss) ts = simp (slashed-append ss ts, append_assoc)

join-append : (ss ts : List Bytes) → Begins (join (ss ++ ts)) (join ss)
unfolding join
join-append [] ts = (join ts, refl)
join-append (s ∷ ss) ts = (slashed ts, simp (slashed-append, append_assoc))

output2string-Begins : (p q : NodePath) → Begins (output2string (p ++ q)) (output2string p)
output2string-Begins p q =
    simp (output2string_lem, map-append) (join-append (map name p) (map name q))

-- The text of a path and that of a path below it always contain one another, in either order.
pub whether_contain-output2string :
    (p q : NodePath)
    → (whether_contain (output2string p) (output2string (p ++ q)) ≡ true)
      × (whether_contain (output2string (p ++ q)) (output2string p) ≡ true)
whether_contain-output2string p q = (
  (whether_contain_iff _ _).1 (inl (output2string-Begins p q)),
  (whether_contain_iff _ _).1 (inr (output2string-Begins p q)),
)

join_last : (ss : List Bytes) (u t : Bytes) → join (ss ++ (u ++ t) ∷ []) ≡ join (ss ++ u ∷ []) ++ t
unfolding join slashed
join_last [] u t = simp append-nil
join_last (s ∷ ss) u t = simp (slashed-append, append_assoc, append-nil)

-- So do the texts of two paths that part ways at their last nodes, if the name of one node begins
-- with that of the other.
pub whether_contain_sibling :
    (p : NodePath) (s t : Bytes)
    → whether_contain
        (output2string (p ++ node_of s ∷ []))
        (output2string (p ++ node_of (s ++ t) ∷ []))
      ≡ true
whether_contain_sibling p s t = (whether_contain_iff _ _).1 (inl (t, longer))
  where
    longer : output2string (p ++ node_of (s ++ t) ∷ []) ≡ output2string (p ++ node_of s ∷ []) ++ t
    longer = simp (output2string_lem, map-append, name-input) (join_last (map name p) s t)

-- ===== src/Visitor/Keys.antt =====
-- component/visitor.go: the key under which a listener is kept.
use realtime_data_center.Base.{
  ℕ, ◌≡◌, refl, sym, ap, ◌∙◌, ◌≢◌, [], ◌∷◌, ◌++◌, append_assoc, All-append, arith, Bytes, utf8,
}
use realtime_data_center.Golib.Strings.{Lacks}
use realtime_data_center.Path.{output2string, input_from_string}
use realtime_data_center.Path.Segments.{IsSegment}
use realtime_data_center.Path.RoundTrip.{
  IsParsed, input_from_string-output2string, output2string-input_from_string_segment,
}
use realtime_data_center.Visitor.{VisitorBasicType, visitor_string, set_visitor}

append_cancel : (p r s : Bytes) → p ++ r ≡ p ++ s → r ≡ s
append_cancel [] r s e = e
append_cancel (c ∷ p) r s e = append_cancel p r s (ground arith)

-- Texts without a separator, before the first separator.
prefix_unique :
    (sep : ℕ) (p q r s : Bytes)
    → Lacks sep p
    → Lacks sep q
    → p ++ sep ∷ r ≡ q ++ sep ∷ s
    → (p ≡ q) × (r ≡ s)
prefix_unique sep [] [] r s hp hq e = (refl, ground arith)
prefix_unique sep [] (d ∷ q) r s hp hq e = absurd (hq.0 (ground arith))
prefix_unique sep (c ∷ p) [] r s hp hq e = absurd (hp.0 (ground arith))
prefix_unique sep (c ∷ p) (d ∷ q) r s hp hq e =
    let (same, rest) = prefix_unique sep p q r s hp.1 hq.1 (ground arith) in (ground arith, rest)

append_cancel_last : (p q : Bytes) (c : ℕ) → p ++ c ∷ [] ≡ q ++ c ∷ [] → p ≡ q
append_cancel_last [] [] c e = refl
append_cancel_last [] (d ∷ []) c e = cc
append_cancel_last [] (d ∷ d' ∷ q) c e = cc
append_cancel_last (b ∷ []) [] c e = cc
append_cancel_last (b ∷ b' ∷ p) [] c e = cc
append_cancel_last (b ∷ p) (d ∷ q) c e =
    let same = append_cancel_last p q c (ground arith) in ground arith

-- Two visitors whose names hold no plus sign, at parsed paths, have the same key only if they have
-- the same name and the same path.
pub visitor_string-injective :
    (a b : VisitorBasicType)
    → Lacks b'+' a.name
    → Lacks b'+' b.name
    → IsParsed a.path
    → IsParsed b.path
    → visitor_string a ≡ visitor_string b
    → (a.name ≡ b.name) × (a.path ≡ b.path)
unfolding visitor_string
visitor_string-injective a b ha hb pa pb e =
    let (names, rest) =
      prefix_unique b'+' a.name b.name (tail_of a) (tail_of b) ha hb
        (append_cancel (utf8 "[访问者:") _ _ e) in
    let texts : output2string a.path ≡ output2string b.path =
      append_cancel_last (output2string a.path) (output2string b.path) b']'
        (append_cancel (utf8 "访问路径:") _ _ rest) in
    (
      names,
      sym (input_from_string-output2string a.path pa)
          ∙ ap input_from_string texts
          ∙ input_from_string-output2string b.path pb,
    )
  where
    tail_of : VisitorBasicType → Bytes
    tail_of v = utf8 "访问路径:" ++ (output2string v.path ++ utf8 "]")

abbrev pub separator : Bytes
separator = utf8 "+访问路径:"

longer-IsSegment : (s t : Bytes) → IsSegment s → IsSegment t → IsSegment (s ++ (separator ++ t))
longer-IsSegment [] t hs ht = absurd (hs.0 refl)
longer-IsSegment (c ∷ s) t hs ht = (
  (λ e. cc),
  All-append (λ b. b ≢ b'/') (c ∷ s) (separator ++ t) hs.1
      (All-append (λ b. b ≢ b'/') separator t (omega arith) ht.1),
)

regroup :
    (n s t : Bytes)
    → n ++ (separator ++ ((s ++ (separator ++ t)) ++ utf8 "]"))
      ≡ (n ++ (separator ++ s)) ++ (separator ++ (t ++ utf8 "]"))
regroup n s t = simp append_assoc

-- A plus sign in a name can make one key of two visitors: whatever the name `n` and the texts `s` and
-- `t` of two segments, the visitor `n` at the path `s+访问路径:t` and the visitor `n+访问路径:s` at the
-- path `t` have the same key.
pub visitor_string_collision :
    (n s t : Bytes)
    → IsSegment s
    → IsSegment t
    → visitor_string (set_visitor n (s ++ (separator ++ t)))
      ≡ visitor_string (set_visitor (n ++ (separator ++ s)) t)
unfolding visitor_string
visitor_string_collision n s t hs ht =
    rw
      (
        output2string-input_from_string_segment (s ++ (separator ++ t))
            (longer-IsSegment s t hs ht),
        output2string-input_from_string_segment t ht,
      )
      (ap (λ r. utf8 "[访问者:" ++ r) (regroup n s t))

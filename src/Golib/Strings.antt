-- ===== src/Golib/Strings.antt =====
-- strings.Split at a separator of one byte, and the text that separated parts spell.
use realtime_data_center.Base.{
  ℕ, ◌≡◌, refl, ◌≢◌, inl, inr, List, [], ◌∷◌, ◌++◌, arith, ◌==◌, if◌then◌else◌, Bytes, All,
  Bool-cases,
}

abbrev pub Lacks : ℕ → Bytes → Type 0
Lacks sep = All (λ c. c ≢ sep)

-- The byte belongs to the first of the parts. `split` never returns no part.
unfoldable pub into_head : ℕ → List Bytes → List Bytes
into_head c [] = (c ∷ []) ∷ []
into_head c (p ∷ ps) = (c ∷ p) ∷ ps

unfoldable pub split : ℕ → Bytes → List Bytes
unfolding into_head
split sep [] = [] ∷ []
split sep (c ∷ s) = let rest = split sep s in if c == sep then [] ∷ rest else into_head c rest

module _ (sep : ℕ) where
  -- A text without separator in front of one is the first part.
  pub split-append_sep : (p s : Bytes) → Lacks sep p → split sep (p ++ sep ∷ s) ≡ p ∷ split sep s
  unfolding split
  split-append_sep [] s _ = ground arith
  split-append_sep (c ∷ p) s (hc, hp) = ground (arith, split-append_sep p s hp)

  pub split_one : (p : Bytes) → Lacks sep p → split sep p ≡ p ∷ []
  unfolding split
  split_one [] _ = refl
  split_one (c ∷ p) (hc, hp) = ground (arith, split_one p hp)

  into_head-Lacks :
      (c : ℕ) (ps : List Bytes) → c ≢ sep → All (Lacks sep) ps → All (Lacks sep) (into_head c ps)
  unfolding into_head
  into_head-Lacks c [] h _ = ((h, tt), tt)
  into_head-Lacks c (p ∷ ps) h (hp, hps) = ((h, hp), hps)

  -- No part holds the separator.
  pub split-Lacks : (s : Bytes) → All (Lacks sep) (split sep s)
  unfolding split
  split-Lacks [] = (tt, tt)
  split-Lacks (c ∷ s) = elim (Bool-cases (c == sep)) [
    | inl e ↦ rw e (tt, split-Lacks s)
    | inr e ↦ rw e (into_head-Lacks c (split sep s) (ground arith) (split-Lacks s))
  ]

  into_head-append :
      (c : ℕ) (ps qs : List Bytes) → ps ≢ [] → into_head c (ps ++ qs) ≡ into_head c ps ++ qs
  unfolding into_head
  into_head-append c [] qs h = absurd (h refl)
  into_head-append c (p ∷ ps) qs h = refl

  into_head-ne-nil : (c : ℕ) (ps : List Bytes) → into_head c ps ≢ []
  unfolding into_head
  into_head-ne-nil c [] e = cc
  into_head-ne-nil c (p ∷ ps) e = cc

  split-ne-nil : (s : Bytes) → split sep s ≢ []
  unfolding split
  split-ne-nil [] e = cc
  split-ne-nil (c ∷ s) e = ground (arith, into_head-ne-nil c (split sep s))

  -- A split at any separator of the text.
  pub split-append : (p s : Bytes) → split sep (p ++ sep ∷ s) ≡ split sep p ++ split sep s
  unfolding split
  split-append [] s = ground arith
  split-append (c ∷ p) s =
      ground
        (arith, split-append p s, into_head-append c (split sep p) (split sep s) (split-ne-nil p))

-- ===== src/Base/Lists.antt =====
-- Lists measured and indexed by native numbers, and two predicates on lists by recursion.
use Prim.Native.Nat.{ℕ, zero, suc, ◌+◌, ◌≤◌, ◌<◌}
use mathlib.Core.Path.{◌≡◌, refl, sym, ap, ◌∙◌}
use mathlib.Core.List.{List, [], ◌∷◌, ◌++◌}
use mathlib.Core.Option.{Option, none, some}
use mathlib.Core.Logic.{inl, inr}
use native.Mathlib.Omega.{arith}
use realtime_data_center.Base.Tests.{Option-cases}

module _ {ℓ} {A : Type ℓ} where
  abbrev pub length : List A → ℕ
  length [] = 0
  length (x ∷ xs) = suc (length xs)

  abbrev pub get_elem? : List A → ℕ → Option A
  get_elem? [] i = none
  get_elem? (x ∷ xs) zero = some x
  get_elem? (x ∷ xs) (suc i) = get_elem? xs i

  -- A write out of bounds changes nothing.
  abbrev pub set : List A → ℕ → A → List A
  set [] i v = []
  set (x ∷ xs) zero v = v ∷ xs
  set (x ∷ xs) (suc i) v = x ∷ set xs i v

  abbrev pub replicate : ℕ → A → List A
  replicate zero a = []
  replicate (suc n) a = a ∷ replicate n a

  abbrev pub drop : ℕ → List A → List A
  drop zero xs = xs
  drop (suc n) [] = []
  drop (suc n) (x ∷ xs) = drop n xs

  abbrev pub take : ℕ → List A → List A
  take zero xs = []
  take (suc n) [] = []
  take (suc n) (x ∷ xs) = x ∷ take n xs

  -- `io.ReadFull`: the first `n` elements and the rest, if there are as many.
  abbrev pub take_exact : ℕ → List A → Option (List A × List A)
  take_exact zero xs = some ([], xs)
  take_exact (suc n) [] = none
  take_exact (suc n) (x ∷ xs) = elim (take_exact n xs) [
    | none ↦ none
    | some (front, rest) ↦ some (x ∷ front, rest)
  ]

  pub take_exact-append : (xs ys : List A) → take_exact (length xs) (xs ++ ys) ≡ some (xs, ys)
  take_exact-append [] ys = refl
  take_exact-append (x ∷ xs) ys = rw (take_exact-append xs ys)

  pub take_exact-some :
      (n : ℕ) (xs : List A) {front rest : List A}
      → take_exact n xs ≡ some (front, rest)
      → (xs ≡ front ++ rest) × (length front ≡ n)
  take_exact-some zero xs e = (cc, cc)
  take_exact-some (suc n) [] e = cc
  take_exact-some (suc n) (x ∷ xs) {front} {rest} e = elim (Option-cases (take_exact n xs)) [
    | inl h ↦ cc (rw h at e)
    | inr ((f, r), h) ↦
        let (split, size) = take_exact-some n xs h in
        let same : (x ∷ f ≡ front) × (r ≡ rest) = (cc (rw h at e), cc (rw h at e)) in
        (cc (split, same.0, same.1), sym (ap length same.0) ∙ ap suc size)
  ]

  pub length-append : (xs ys : List A) → length (xs ++ ys) ≡ length xs + length ys
  length-append [] ys = omega arith
  length-append (x ∷ xs) ys = omega (arith, length-append xs ys)

  pub get_elem?-append_length :
      (xs ys : List A) (y : A) → get_elem? (xs ++ y ∷ ys) (length xs) ≡ some y
  get_elem?-append_length [] ys y = refl
  get_elem?-append_length (x ∷ xs) ys y = get_elem?-append_length xs ys y

  pub take-append_length : (xs ys : List A) → take (length xs) (xs ++ ys) ≡ xs
  take-append_length [] ys = refl
  take-append_length (x ∷ xs) ys = ap (λ r. x ∷ r) (take-append_length xs ys)

  -- A list of one element more than `n` is its first `n` elements and the one at `n`.
  pub take-get_elem? :
      (n : ℕ) (xs : List A) {y : A}
      → length xs ≡ suc n
      → get_elem? xs n ≡ some y
      → xs ≡ take n xs ++ y ∷ []
  take-get_elem? zero (x ∷ []) h e = cc
  take-get_elem? zero (x ∷ z ∷ xs) h e = absurd (omega (arith, h))
  take-get_elem? (suc n) [] h e = cc
  take-get_elem? zero [] h e = cc
  take-get_elem? (suc n) (x ∷ xs) h e = ap (λ r. x ∷ r) (take-get_elem? n xs (omega (arith, h)) e)

  pub take_exact_within :
      (k : ℕ) (xs ys : List A) {y : A}
      → get_elem? xs k ≡ some y
      → (rest : List A) × (take_exact (suc k) (xs ++ ys) ≡ some (take (suc k) xs, rest))
  take_exact_within k [] ys e = cc
  take_exact_within zero (x ∷ xs) ys e = (xs ++ ys, refl)
  take_exact_within (suc k) (x ∷ xs) ys e = let (r, h) = take_exact_within k xs ys e in (r, rw h)

  pub get_elem?-take : (k : ℕ) (xs : List A) → get_elem? (take (suc k) xs) k ≡ get_elem? xs k
  get_elem?-take k [] = refl
  get_elem?-take zero (x ∷ xs) = refl
  get_elem?-take (suc k) (x ∷ xs) = get_elem?-take k xs

  pub get_elem?-lt : (n : ℕ) (xs : List A) {y : A} → get_elem? xs n ≡ some y → n < length xs
  get_elem?-lt n [] e = cc
  get_elem?-lt zero (x ∷ xs) e = omega arith
  get_elem?-lt (suc n) (x ∷ xs) e = omega (arith, get_elem?-lt n xs e)

  pub length-take : (n : ℕ) (xs : List A) → n ≤ length xs → length (take n xs) ≡ n
  length-take zero xs h = refl
  length-take (suc n) [] h = absurd (omega arith)
  length-take (suc n) (x ∷ xs) h = ap suc (length-take n xs (omega arith))

  pub length-set : (xs : List A) (i : ℕ) (v : A) → length (set xs i v) ≡ length xs
  length-set [] i v = refl
  length-set (x ∷ xs) zero v = refl
  length-set (x ∷ xs) (suc i) v = ap suc (length-set xs i v)

  pub length-replicate : (n : ℕ) (a : A) → length (replicate n a) ≡ n
  length-replicate zero a = refl
  length-replicate (suc n) a = ap suc (length-replicate n a)

  pub length-drop-le : (n : ℕ) (xs : List A) → length (drop n xs) ≤ length xs
  length-drop-le zero xs = omega arith
  length-drop-le (suc n) [] = omega arith
  length-drop-le (suc n) (x ∷ xs) = omega (arith, length-drop-le n xs)

module _ {ℓ κ} {A : Type ℓ} (P : A → Type κ) where
  abbrev pub All : List A → Type κ
  All [] = Unit
  All (x ∷ xs) = P x × All xs

  pub All-split : (xs ys : List A) → All (xs ++ ys) → All xs × All ys
  All-split [] ys h = (tt, h)
  All-split (x ∷ xs) ys (px, h) = let (hx, hy) = All-split xs ys h in ((px, hx), hy)

  pub All-append : (xs ys : List A) → All xs → All ys → All (xs ++ ys)
  All-append [] ys _ hy = hy
  All-append (x ∷ xs) ys (px, hx) hy = (px, All-append xs ys hx hy)

pub All-weaken {ℓ κ μ} :
    {A : Type ℓ} (P : A → Type κ) (Q : A → Type μ) (xs : List A)
    → ((x : A) → P x → Q x)
    → All P xs
    → All Q xs
All-weaken P Q [] h a = tt
All-weaken P Q (x ∷ xs) h (p, a) = (h x p, All-weaken P Q xs h a)

-- ===== src/Base/Dicts.antt =====
-- Go maps with string keys, and sync.Map: association lists in which an insertion overwrites in
-- place. The order of the list stands for the order, unspecified in Go, in which a range visits.
use mathlib.Core.Path.{◌≡◌, refl, subst, ◌∙◌}
use mathlib.Core.Logic.{inl, inr}
use mathlib.Core.Bool.{Bool, false}
use mathlib.Core.List.{List, [], ◌∷◌}
use mathlib.Core.Option.{Option, none, some}
use native.Mathlib.Omega.{arith}
use realtime_data_center.Base.Tests.{if◌then◌else◌, Bool-cases}
use realtime_data_center.Base.Lists.{All}
use realtime_data_center.Base.Strings.{Bytes, bytes_eq, bytes_eq_iff, bytes_eq_refl}

abbrev pub Dict {ℓ} : Type ℓ → Type ℓ
Dict V = List (Bytes × V)

module _ {ℓ} {V : Type ℓ} where
  unfoldable pub lookup : Bytes → Dict V → Option V
  lookup k [] = none
  lookup k ((j, v) ∷ m) = if bytes_eq j k then some v else lookup k m

  unfoldable pub insert : Bytes → V → Dict V → Dict V
  insert k v [] = (k, v) ∷ []
  insert k v ((j, w) ∷ m) = if bytes_eq j k then (j, v) ∷ m else (j, w) ∷ insert k v m

  unfoldable pub delete : Bytes → Dict V → Dict V
  delete k [] = []
  delete k ((j, w) ∷ m) = if bytes_eq j k then delete k m else (j, w) ∷ delete k m

  pub lookup-insert :
      (k j : Bytes) (v : V) (m : Dict V)
      → lookup j (insert k v m) ≡ (if bytes_eq k j then some v else lookup j m)
  unfolding lookup insert
  lookup-insert k j v [] = refl
  lookup-insert k j v ((i, w) ∷ m) =
      ground (arith, bytes_eq_iff k j, bytes_eq_iff i k, bytes_eq_iff i j, lookup-insert k j v m)

  pub lookup-delete :
      (k j : Bytes) (m : Dict V)
      → lookup j (delete k m) ≡ (if bytes_eq k j then none else lookup j m)
  unfolding lookup delete
  lookup-delete k j [] = ground arith
  lookup-delete k j ((i, w) ∷ m) =
      ground (arith, bytes_eq_iff k j, bytes_eq_iff i k, bytes_eq_iff i j, lookup-delete k j m)

-- A property of every entry is kept by the operations.
module _ {ℓ κ} {V : Type ℓ} (P : Bytes × V → Type κ) where
  pub All-insert :
      (k : Bytes) (v : V) (m : Dict V)
      → ((j : Bytes) → j ≡ k → P (j, v))
      → All P m
      → All P (insert k v m)
  unfolding insert
  All-insert k v [] h a = (h k refl, tt)
  All-insert k v ((j, w) ∷ m) h (p, a) = elim (Bool-cases (bytes_eq j k)) [
    | inl e ↦ rw e (h j ((bytes_eq_iff j k).0 e), a)
    | inr e ↦ rw e (p, All-insert k v m h a)
  ]

  pub All-delete : (k : Bytes) (m : Dict V) → All P m → All P (delete k m)
  unfolding delete
  All-delete k [] a = tt
  All-delete k ((j, w) ∷ m) (p, a) = elim (Bool-cases (bytes_eq j k)) [
    | inl e ↦ rw e (All-delete k m a)
    | inr e ↦ rw e (p, All-delete k m a)
  ]

  pub All-lookup : (k : Bytes) (m : Dict V) {v : V} → All P m → lookup k m ≡ some v → P (k, v)
  unfolding lookup
  All-lookup k [] a e = cc
  All-lookup k ((j, w) ∷ m) {v} (p, a) e = elim (Bool-cases (bytes_eq j k)) [
    | inl h ↦ subst P (cc ((bytes_eq_iff j k).0 h, rw h at e)) p
    | inr h ↦ All-lookup k m a (rw h at e)
  ]

module _ {ℓ} {V : Type ℓ} where
  -- Every key stands once, as in a Go map.
  abbrev pub Distinct : Dict V → Type ℓ
  Distinct [] = Unit
  Distinct ((k, v) ∷ m) = (lookup k m ≡ none) × Distinct m

  pub insert-Distinct : (k : Bytes) (v : V) (m : Dict V) → Distinct m → Distinct (insert k v m)
  unfolding insert lookup
  insert-Distinct k v [] d = (refl, tt)
  insert-Distinct k v ((j, w) ∷ m) (h, d) = elim (Bool-cases (bytes_eq j k)) [
    | inl e ↦ rw e (h, d)
    | inr e ↦ rw e (lookup-insert k j v m ∙ rw (not_eq e) h, insert-Distinct k v m d)
  ]
    where
      not_eq : bytes_eq j k ≡ false → bytes_eq k j ≡ false
      not_eq e = ground (arith, bytes_eq_iff j k, bytes_eq_iff k j)

  pub delete-Distinct : (k : Bytes) (m : Dict V) → Distinct m → Distinct (delete k m)
  unfolding delete
  delete-Distinct k [] d = tt
  delete-Distinct k ((j, w) ∷ m) (h, d) = elim (Bool-cases (bytes_eq j k)) [
    | inl e ↦ rw e (delete-Distinct k m d)
    | inr e ↦ rw e (lookup-delete k j m ∙ ground arith, delete-Distinct k m d)
  ]

  -- The entries that pass a test.
  unfoldable pub filter_dict : (Bytes × V → Bool) → Dict V → Dict V
  filter_dict t [] = []
  filter_dict t (e ∷ m) = if t e then e ∷ filter_dict t m else filter_dict t m

  filter_dict-none :
      (t : Bytes × V → Bool) (k : Bytes) (m : Dict V)
      → lookup k m ≡ none
      → lookup k (filter_dict t m) ≡ none
  unfolding filter_dict lookup
  filter_dict-none t k [] h = refl
  filter_dict-none t k ((j, w) ∷ m) h = ground (arith, filter_dict-none t k m)

  pub lookup-filter_dict :
      (t : Bytes × V → Bool) (k : Bytes) (m : Dict V)
      → Distinct m
      → lookup k (filter_dict t m)
        ≡ elim (lookup k m) [ some v ↦ if t (k, v) then some v else none | none ↦ none ]
  unfolding filter_dict lookup
  lookup-filter_dict t k [] d = refl
  lookup-filter_dict t k ((j, w) ∷ m) (h, d) = elim (Bool-cases (bytes_eq j k)) [
    | inl e ↦
        subst
          (λ i. lookup i (filter_dict t ((j, w) ∷ m)) ≡ elim (lookup i ((j, w) ∷ m)) [
            | some v ↦ if t (i, v) then some v else none
            | none ↦ none
          ])
          ((bytes_eq_iff j k).0 e) (ground (arith, bytes_eq_refl j, filter_dict-none t j m h))
    | inr e ↦ ground (arith, lookup-filter_dict t k m d)
  ]

  pub filter_dict-Distinct :
      (t : Bytes × V → Bool) (m : Dict V) → Distinct m → Distinct (filter_dict t m)
  unfolding filter_dict
  filter_dict-Distinct t [] d = tt
  filter_dict-Distinct t ((j, w) ∷ m) (h, d) =
      ground (arith, filter_dict-none t j m h, filter_dict-Distinct t m d)

pub All-filter_dict {ℓ κ} :
    {V : Type ℓ} (P : Bytes × V → Type κ) (t : Bytes × V → Bool) (m : Dict V)
    → All P m
    → All P (filter_dict t m)
unfolding filter_dict
All-filter_dict P t [] a = tt
All-filter_dict P t (e ∷ m) (p, a) = elim (Bool-cases (t e)) [
  | inl h ↦ rw h (p, All-filter_dict P t m a)
  | inr h ↦ rw h (All-filter_dict P t m a)
]

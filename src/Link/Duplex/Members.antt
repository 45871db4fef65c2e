-- ===== src/Link/Duplex/Members.antt =====
-- socketApi/socket.go: lists of requests, and what the functions on them keep.
use realtime_data_center.Base.{
  ℕ, zero, suc, ◌<◌, ◌≤◌, ◌≡◌, sym, ap, subst, ◌∙◌, ◌⊎◌, inl, inr, List, [], ◌∷◌, ◌++◌, some, arith,
  ◌==◌, get_elem?, All, Bool-cases, Option-cases, append-nil, append_assoc,
}
use realtime_data_center.Socket.{Frame, encode}
use realtime_data_center.Socket.Stream.{encode_all}
use realtime_data_center.Link.{Request, load_request, delete_request, store_request}
use realtime_data_center.Link.Session.{remove_at}

abbrev pub In : {A : Type 0} → A → List A → Type 0
In x [] = ⊥
In x (y ∷ ys) = (x ≡ y) ⊎ In x ys

abbrev pub Sub : {A : Type 0} → List A → List A → Type 0
Sub {A} xs ys = (x : A) → In x xs → In x ys

pub All-In : {A : Type 0} (P : A → Type 0) (xs : List A) (x : A) → All P xs → In x xs → P x
All-In P [] x a i = absurd i
All-In P (y ∷ ys) x a (inl e) = subst P (sym e) a.0
All-In P (y ∷ ys) x a (inr i) = All-In P ys x a.1 i

-- The orders of the requests, the newest first.
abbrev pub Below : ℕ → List Request → Type 0
Below n [] = Unit
Below n (r ∷ rs) = (r.order < n) × Below r.order rs

pub In-lt : (n : ℕ) (rs : List Request) (r : Request) → Below n rs → In r rs → r.order < n
In-lt n [] r b i = absurd i
In-lt n (q ∷ rs) r b (inl e) = rw e b.0
In-lt n (q ∷ rs) r b (inr i) = omega (arith, In-lt q.order rs r b.1 i, b.0)

-- An order belongs to one request.
pub In-unique :
    (n : ℕ) (rs : List Request) (q r : Request)
    → Below n rs
    → In q rs
    → In r rs
    → q.order ≡ r.order
    → q ≡ r
In-unique n [] q r b i j e = absurd i
In-unique n (x ∷ rs) q r b (inl i) (inl j) e = i ∙ sym j
In-unique n (x ∷ rs) q r b (inl i) (inr j) e =
    absurd (omega (arith, In-lt x.order rs r b.1 j, ap (λ t. t.order) i, e))
In-unique n (x ∷ rs) q r b (inr i) (inl j) e =
    absurd (omega (arith, In-lt x.order rs q b.1 i, ap (λ t. t.order) j, e))
In-unique n (x ∷ rs) q r b (inr i) (inr j) e = In-unique x.order rs q r b.1 i j e

pub Below-weaken : (n m : ℕ) (rs : List Request) → n ≤ m → Below n rs → Below m rs
Below-weaken n m [] h b = tt
Below-weaken n m (r ∷ rs) h b = (omega (arith, b.0, h), b.1)

module _ (P : Request → Type 0) where
  pub All-get_elem? :
      (i : ℕ) (rs : List Request) {r : Request} → All P rs → get_elem? rs i ≡ some r → P r
  All-get_elem? i [] a e = cc
  All-get_elem? zero (q ∷ rs) {r} a e = let same : q ≡ r = cc e in subst P same a.0
  All-get_elem? (suc i) (q ∷ rs) a e = All-get_elem? i rs a.1 e

  pub All-remove_at : (i : ℕ) (rs : List Request) → All P rs → All P (remove_at i rs)
  unfolding remove_at
  All-remove_at i [] a = tt
  All-remove_at zero (q ∷ rs) a = a.1
  All-remove_at (suc i) (q ∷ rs) a = (a.0, All-remove_at i rs a.1)

  pub All-delete_request : (k : ℕ) (rs : List Request) → All P rs → All P (delete_request k rs)
  unfolding delete_request
  All-delete_request k [] a = tt
  All-delete_request k (q ∷ rs) a = elim (Bool-cases (q.order == k)) [
    | inl h ↦ rw h (All-delete_request k rs a.1)
    | inr h ↦ rw h (a.0, All-delete_request k rs a.1)
  ]

  pub All-load_request :
      (k : ℕ) (rs : List Request) {r : Request} → All P rs → load_request k rs ≡ some r → P r
  unfolding load_request
  All-load_request k [] a e = cc
  All-load_request k (q ∷ rs) {r} a e = elim (Bool-cases (q.order == k)) [
    | inl h ↦ let same : q ≡ r = cc (rw h at e) in subst P same a.0
    | inr h ↦ All-load_request k rs a.1 (rw h at e)
  ]

  pub All-store_request :
      (r : Request) (rs : List Request) → P r → All P rs → All P (store_request r rs)
  unfolding store_request
  All-store_request r rs p a = elim (Option-cases (load_request r.order rs)) [
    | inl e ↦ rw (e, store_request) (p, a)
    | inr (q, e) ↦ rw (e, store_request) a
  ]

pub encode_all-snoc :
    (fs : List Frame) (f : Frame) → encode_all fs ++ encode f ≡ encode_all (fs ++ f ∷ [])
encode_all-snoc [] f = sym (append-nil (encode f))
encode_all-snoc (g ∷ fs) f =
    append_assoc (encode g) (encode_all fs) (encode f)
    ∙ ap (λ b. encode g ++ b) (encode_all-snoc fs f)

-- ===== src/Link/Session.antt =====
-- socketApi/socket.go: a connection over time. Any number of goroutines may be in `Request`, between
-- taking an order and being accepted by the writer; frames arrive at any time.
use realtime_data_center.Base.{
  subst, ℕ, zero, suc, ◌+◌, ◌%◌, ◌^◌, ◌<◌, ◌≤◌, ◌≡◌, refl, ap, inl, inr, Bool, List, [], ◌∷◌, ◌++◌,
  Option, none, some, arith, ◌==◌, if◌then◌else◌, Bytes, Option-cases, get_elem?,
}
use realtime_data_center.Base.Int.{ℤ}
use realtime_data_center.Socket.{Frame}
use realtime_data_center.Link.{
  Request, Link, new_link, new_request, send_request, load_request, Reaction, SocketOutput,
  handle_frame,
}
use realtime_data_center.Link.Matching.{
  present, orders, count, delivered, Kept, present-store_request, handle_frame-Kept,
}

-- `asked` are the requests that have an order and wait for the writer; `log` are the orders to which
-- an answer was delivered.
pub record Session (S : Type 0) : Type 0 where
  pub link : Link
  pub asked : List Request
  pub log : List ℕ
  pub upper : S

-- A request takes an order; the writer accepts one of those that wait, and sends it at a time; one of
-- those gives up; a frame arrives at a time.
pub data Event : Type 0 where
  ask : ℕ → Bytes → Event
  accept : ℕ → ℤ → Event
  give_up : ℕ → Event
  arrive : Frame → ℤ → Event

unfoldable pub remove_at : ℕ → List Request → List Request
remove_at i [] = []
remove_at zero (r ∷ rs) = rs
remove_at (suc i) (r ∷ rs) = r ∷ remove_at i rs

module _ {S : Type 0} (server : Bool) (notify : Option (SocketOutput S)) where
  -- One event; `none` once the program has ended.
  unfoldable pub step : Event → Session S → Option (Session S)
  unfolding new_request send_request remove_at
  step (ask cmd payload) x =
      let (link, r) = new_request cmd payload x.link in
      some (record x { link = link; asked = r ∷ x.asked })
  step (accept i time) x = elim (get_elem? x.asked i) [
    | none ↦ some x
    | some r ↦
        some
          (record x { link = (send_request server time r x.link).0; asked = remove_at i x.asked })
  ]
  step (give_up i) x = some (record x { asked = remove_at i x.asked })
  step (arrive frame now) x = elim (handle_frame server notify now frame (x.link, x.upper)) [
    | none ↦ none
    | some ((link, s), reaction) ↦
        some (record x { link = link; upper = s; log = delivered reaction ++ x.log })
  ]

  unfoldable pub run : List Event → Session S → Option (Session S)
  unfolding step
  run [] x = some x
  run (e ∷ es) x = elim (step e x) [ none ↦ none | some x' ↦ run es x' ]

abbrev pub start : {S : Type 0} → ℤ → S → Session S
start now s = record { link = new_link now; asked = []; log = []; upper = s }

-- How many requests take an order.
abbrev pub asks : List Event → ℕ
asks [] = 0
asks (ask cmd payload ∷ es) = suc (asks es)
asks (accept i time ∷ es) = asks es
asks (give_up i ∷ es) = asks es
asks (arrive frame now ∷ es) = asks es

orders-remove_at :
    (k i : ℕ) (rs : List Request) {r : Request}
    → get_elem? rs i ≡ some r
    → orders k rs ≡ (if r.order == k then 1 else 0) + orders k (remove_at i rs)
unfolding remove_at
orders-remove_at k i [] e = cc
orders-remove_at k zero (q ∷ rs) {r} e =
    let same : q ≡ r = cc e in ap (λ x. (if x.order == k then 1 else 0) + orders k rs) same
orders-remove_at k (suc i) (q ∷ rs) e = omega (arith, orders-remove_at k i rs e)

orders-remove_at-le : (k i : ℕ) (rs : List Request) → orders k (remove_at i rs) ≤ orders k rs
unfolding remove_at
orders-remove_at-le k i [] = omega arith
orders-remove_at-le k zero (q ∷ rs) = omega arith
orders-remove_at-le k (suc i) (q ∷ rs) = omega (arith, orders-remove_at-le k i rs)

count-append : (k : ℕ) (xs ys : List ℕ) → count k (xs ++ ys) ≡ count k xs + count k ys
count-append k [] ys = omega arith
count-append k (x ∷ xs) ys = omega (arith, count-append k xs ys)

-- The claims to an order: those who wait for the writer or for an answer with it, and the answers that
-- were delivered to it.
abbrev pub claims : {S : Type 0} → ℕ → Session S → ℕ
claims k x = present k x.link.ret_queue + orders k x.asked + count k x.log

-- An order has one claim at most, and none before it is given out.
abbrev pub Sound : {S : Type 0} → ℕ → Session S → Type 0
Sound k x = (claims k x ≤ 1) × (x.link.order < k → claims k x ≡ 0)

module _ {S : Type 0} (server : Bool) (notify : Option (SocketOutput S)) where
  abbrev Next : ℕ → List Event → ℕ → Option (Session S) → Type 0
  Next k es top none = Unit {0}
  Next k es top (some x) = Sound k x × (x.link.order + asks es ≤ top)

  arrive-Next :
      (k : ℕ) (es : List Event) (x : Session S) (o : Option ((Link × S) × Reaction))
      → Kept k x.link o
      → Sound k x
      → Next k es (x.link.order + asks es) (elim o [
        | none ↦ none
        | some ((link, s), reaction) ↦
            some (record x { link = link; upper = s; log = delivered reaction ++ x.log })
      ])
  arrive-Next k es x none kept s = tt
  arrive-Next k es x (some ((link, u), reaction)) (same, less) (one, none_yet) =
      let log = count-append k (delivered reaction) x.log in
      (
        (
          omega (arith, less, one, log),
          λ later.
              let zero_before = none_yet (omega (arith, same, later)) in
              omega (arith, less, zero_before, log),
        ),
        omega (arith, same),
      )

  step-Sound :
      (k : ℕ) (e : Event) (es : List Event) (x : Session S)
      → x.link.order + asks (e ∷ es) < 2 ^ 64
      → Sound k x
      → Next k es (x.link.order + asks (e ∷ es)) (step server notify e x)
  unfolding step new_request send_request
  step-Sound k (ask cmd payload) es x h (one, none_yet) =
      let wrap : (x.link.order + 1) % 2 ^ 64 ≡ x.link.order + 1 = omega (arith, h) in
      ground (arith, wrap)
  step-Sound k (accept i time) es x h (one, none_yet) = elim (Option-cases (get_elem? x.asked i)) [
    | inl e ↦ rw (e, step) ((one, none_yet), omega arith)
    | inr (r, e) ↦
        let moved = orders-remove_at k i x.asked e in
        let stored = present-store_request r k x.link.ret_queue in
        rw (e, step)
          (
            (
              omega (arith, moved, stored, one),
              λ later. omega (arith, moved, stored, none_yet later),
            ),
            omega arith,
          )
  ]
  step-Sound k (give_up i) es x h (one, none_yet) =
      let less = orders-remove_at-le k i x.asked in
      ((omega (arith, less, one), λ later. omega (arith, less, none_yet later)), omega arith)
  step-Sound k (arrive frame now) es x h s =
      arrive-Next k es x _ (handle_frame-Kept k server notify now frame x.link x.upper) s

  run-Sound :
      (k : ℕ) (es : List Event) (x : Session S) {x' : Session S}
      → x.link.order + asks es < 2 ^ 64
      → Sound k x
      → run server notify es x ≡ some x'
      → Sound k x'
  unfolding run
  run-Sound k [] x {x'} h s e = let same : x ≡ x' = cc e in subst (Sound k) same s
  run-Sound k (e ∷ es) x h s r = elim (Option-cases (step server notify e x)) [
    | inl q ↦ cc (rw (q, run) at r)
    | inr (y, q) ↦
        let (sound, top) = rw q at (step-Sound k e es x h s) in
        run-Sound k es y (omega (arith, top, h)) sound (rw (q, run) at r)
  ]

-- Over a connection's life, as long as fewer than 2^64 requests take an order: whatever frames arrive,
-- in whatever order requests are sent or given up, an answer is delivered at most once to an order, and
-- never to one that was not given out.
pub run_delivers_once :
    {S : Type 0} (server : Bool) (notify : Option (SocketOutput S)) (es : List Event) (now : ℤ)
    (s : S) (x : Session S) (k : ℕ)
    → asks es < 2 ^ 64
    → run server notify es (start now s) ≡ some x
    → (count k x.log ≤ 1) × (x.link.order < k → count k x.log ≡ 0)
run_delivers_once server notify es now s x k h r =
    let (one, none_yet) = run-Sound server notify k es (start now s) (omega (arith, h)) (new k) r in
    (omega (arith, one), λ later. omega (arith, none_yet later))
  where
    new : (j : ℕ) → Sound j (start now s)
    new j = unfold load_request in (omega arith, λ _. refl)

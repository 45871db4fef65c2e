-- ===== src/Link/Matching.antt =====
-- socketApi/socket.go: requests and the answers to them.
use realtime_data_center.Base.{
  ℕ, ◌+◌, ◌≤◌, ◌&&◌, ◌≡◌, refl, sym, ap, ◌∙◌, inl, inr, Bool, true, false, List, [], ◌∷◌, Option,
  none, some, arith, ◌==◌, if◌then◌else◌, Bool-cases, Option-cases,
}
use realtime_data_center.Base.Int.{ℤ}
use realtime_data_center.Socket.{Frame}
use realtime_data_center.Link.{
  server_ack, is_ack, server_request, is_request, cmd_heart, Request, Link, load_request,
  delete_request, store_request, Reaction, deliver, answer, drop, SocketOutput, handle_request,
  handle_ack, handle_frame,
}

pub load-delete_request :
    (i j : ℕ) (queue : List Request)
    → load_request j (delete_request i queue) ≡ (if i == j then none else load_request j queue)
unfolding load_request delete_request
load-delete_request i j [] = ground arith
load-delete_request i j (r ∷ queue) = ground (arith, load-delete_request i j queue)

pub load_request-some :
    (j : ℕ) (queue : List Request) {r : Request} → load_request j queue ≡ some r → r.order ≡ j
unfolding load_request
load_request-some j [] e = cc
load_request-some j (q ∷ queue) {r} e = elim (Bool-cases (q.order == j)) [
  | inl h ↦ ap (λ x. x.order) (let same : q ≡ r = cc (rw h at e) in sym same) ∙ ground arith
  | inr h ↦ load_request-some j queue (rw h at e)
]

-- How often an order stands in a queue, in a list of requests and in a list of orders.
abbrev pub present : ℕ → List Request → ℕ
present k queue = elim (load_request k queue) [ none ↦ 0 | some _ ↦ 1 ]

abbrev pub orders : ℕ → List Request → ℕ
orders k [] = 0
orders k (r ∷ rs) = (if r.order == k then 1 else 0) + orders k rs

abbrev pub count : ℕ → List ℕ → ℕ
count k [] = 0
count k (i ∷ is) = (if i == k then 1 else 0) + count k is

pub present-store_request :
    (r : Request) (k : ℕ) (queue : List Request)
    → present k (store_request r queue) ≤ present k queue + (if r.order == k then 1 else 0)
unfolding store_request load_request
present-store_request r k queue = ground arith

pub present-delete_request :
    (i k : ℕ) (queue : List Request)
    → present k (delete_request i queue) ≡ (if i == k then 0 else present k queue)
present-delete_request i k queue = ground (arith, load-delete_request i k queue)

-- The orders to which a reaction delivers an answer.
abbrev pub delivered : Reaction → List ℕ
delivered (deliver r content) = r.order ∷ []
delivered (answer a) = []
delivered drop = []

module _ {S : Type 0} where
  -- What the handling of a frame does to the number of an order and to the deliveries to a request.
  abbrev pub Kept : ℕ → Link → Option ((Link × S) × Reaction) → Type 0
  Kept k link none = Unit {0}
  Kept k link (some ((link', s'), reaction)) =
      (link'.order ≡ link.order)
      × (count k (delivered reaction) + present k link'.ret_queue ≤ present k link.ret_queue)

  handle_ack-Kept :
      (k : ℕ) (frame : Frame) (link : Link) (s : S) → Kept k link (handle_ack frame (link, s))
  unfolding handle_ack
  handle_ack-Kept k frame link s = elim (Option-cases (load_request frame.order link.ret_queue)) [
    | inl e ↦ rw (e, handle_ack) (refl, omega arith)
    | inr (r, e) ↦
        rw (e, handle_ack)
          (
            refl,
            ground (
              arith,
              present-delete_request frame.order k link.ret_queue,
              load_request-some frame.order link.ret_queue e,
              ap (λ o. present o link.ret_queue) (load_request-some frame.order link.ret_queue e),
            ),
          )
  ]

  handle_request-Kept :
      (k : ℕ) (notify : Option (SocketOutput S)) (now : ℤ) (frame : Frame) (link : Link) (s : S)
      → Kept k link (handle_request notify now frame (link, s))
  unfolding handle_request
  handle_request-Kept k none now frame link s = elim (Bool-cases (frame.cmd == cmd_heart)) [
    | inl h ↦ rw h (refl, omega arith)
    | inr h ↦ rw h (refl, omega arith)
  ]
  handle_request-Kept k (some f) now frame link s = elim (Bool-cases (frame.cmd == cmd_heart)) [
    | inl h ↦ rw h (refl, omega arith)
    | inr h ↦ elim (Option-cases (f frame.cmd frame.payload s)) [
      | inl e ↦ rw (h, e, handle_request) tt
      | inr (r, e) ↦ rw (h, e, handle_request) (refl, omega arith)
    ]
  ]

  pub handle_frame-Kept :
      (k : ℕ) (server : Bool) (notify : Option (SocketOutput S)) (now : ℤ) (frame : Frame)
      (link : Link) (s : S)
      → Kept k link (handle_frame server notify now frame (link, s))
  unfolding handle_frame
  handle_frame-Kept k server notify now frame link s =
      if-Kept (is_request frame.direction) _ _
        (if-Kept (server && frame.direction == server_request) _ _ same
          (handle_request-Kept k notify now frame link s))
        (if-Kept (is_ack frame.direction) _ _
          (if-Kept (server && frame.direction == server_ack) _ _ same
            (handle_ack-Kept k frame link s))
          same)
    where
      same : Kept k link (some ((link, s), drop))
      same = (refl, omega arith)

      if-Kept :
          (b : Bool) (x y : Option ((Link × S) × Reaction))
          → Kept k link x
          → Kept k link y
          → Kept k link (if b then x else y)
      if-Kept true x y p q = p
      if-Kept false x y p q = q

-- ===== src/Link/Duplex/Reactions.antt =====
-- socketApi/socket.go: what the handling of a frame makes of it.
use realtime_data_center.Base.{
  ℕ, ◌^◌, ◌<◌, ◌-◌, ◌≡◌, refl, inl, inr, Bool, true, false, ◌&&◌, Option, none, some, arith, ◌==◌,
  if◌then◌else◌, Bytes, length, Bool-cases, Option-cases,
}
use realtime_data_center.Base.Int.{ℤ}
use realtime_data_center.Socket.{Frame, server_request, server_ack, cmd_heart}
use realtime_data_center.Link.{
  Link, load_request, delete_request, Reaction, answer, deliver, drop, SocketOutput, is_request,
  is_ack, handle_request, handle_ack, handle_frame,
}

-- A callback that never ends the program and whose answers fit in a frame.
abbrev pub Answers : {S : Type 0} → Option (SocketOutput S) → Type 0
Answers none = Unit {0}
Answers {S} (some f) =
    (cmd : ℕ) (payload : Bytes) (s : S)
    → (o : S × Bytes) × (f cmd payload s ≡ some o) × (length o.1 < 2 ^ 16 - 1)

module _ {S : Type 0} where
  -- What a reaction to a frame says of it.
  abbrev pub Reacted : Frame → Link → Option ((Link × S) × Reaction) → Type 0
  Reacted f link none = ⊥
  Reacted f link (some ((link', s), drop)) =
      (link'.order ≡ link.order) × (link'.ret_queue ≡ link.ret_queue)
  Reacted f link (some ((link', s), answer a)) =
      (link'.order ≡ link.order)
      × (link'.ret_queue ≡ link.ret_queue)
      × (is_request f.direction ≡ true)
      × (a.order ≡ f.order)
      × (length a.content < 2 ^ 16 - 1)
  Reacted f link (some ((link', s), deliver r content)) =
      (link'.order ≡ link.order)
      × (link'.ret_queue ≡ delete_request f.order link.ret_queue)
      × (is_ack f.direction ≡ true)
      × (load_request f.order link.ret_queue ≡ some r)
      × (content ≡ f.payload)

  handle_ack-Reacted :
      (f : Frame) (link : Link) (s : S)
      → is_ack f.direction ≡ true
      → Reacted f link (handle_ack f (link, s))
  unfolding handle_ack
  handle_ack-Reacted f link s h = elim (Option-cases (load_request f.order link.ret_queue)) [
    | inl e ↦ rw (e, handle_ack) (refl, refl)
    | inr (r, e) ↦ rw (e, handle_ack) (refl, refl, h, e, refl)
  ]

  handle_request-Reacted :
      (notify : Option (SocketOutput S)) (now : ℤ) (f : Frame) (link : Link) (s : S)
      → Answers notify
      → is_request f.direction ≡ true
      → Reacted f link (handle_request notify now f (link, s))
  unfolding handle_request
  handle_request-Reacted none now f link s t h = elim (Bool-cases (f.cmd == cmd_heart)) [
    | inl e ↦ rw e (refl, refl, h, refl, omega arith)
    | inr e ↦ rw e (refl, refl)
  ]
  handle_request-Reacted (some g) now f link s t h = elim (Bool-cases (f.cmd == cmd_heart)) [
    | inl e ↦ rw e (refl, refl, h, refl, omega arith)
    | inr e ↦
        let (o, q, size) = t f.cmd f.payload s in
        rw (e, q, handle_request) (refl, refl, h, refl, size)
  ]

  pub handle_frame-Reacted :
      (server : Bool) (notify : Option (SocketOutput S)) (now : ℤ) (f : Frame) (link : Link) (s : S)
      → Answers notify
      → Reacted f link (handle_frame server notify now f (link, s))
  unfolding handle_frame
  handle_frame-Reacted server notify now f link s t = elim (Bool-cases (is_request f.direction)) [
    | inl h ↦ rw h (
        if-Reacted (server && f.direction == server_request) _ _ same
          (handle_request-Reacted notify now f link s t h))
    | inr h ↦ elim (Bool-cases (is_ack f.direction)) [
      | inl a ↦
          rw (h, a)
            (if-Reacted (server && f.direction == server_ack) _ _ same
              (handle_ack-Reacted f link s a))
      | inr a ↦ rw (h, a) same
    ]
  ]
    where
      same : Reacted f link (some ((link, s), drop))
      same = (refl, refl)

      if-Reacted :
          (b : Bool) (x y : Option ((Link × S) × Reaction))
          → Reacted f link x
          → Reacted f link y
          → Reacted f link (if b then x else y)
      if-Reacted true x y p q = p
      if-Reacted false x y p q = q

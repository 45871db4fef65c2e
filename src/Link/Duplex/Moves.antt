-- ===== src/Link/Duplex/Moves.antt =====
-- socketApi/socket.go: what every move keeps of the two ends of a connection.
use realtime_data_center.Base.{
  Bool-cases, ℕ, suc, ◌+◌, ◌%◌, ◌^◌, ◌<◌, ◌≤◌, ◌≡◌, refl, sym, subst, inl, inr, Bool, not, List, [],
  ◌∷◌, ◌++◌, Option, none, some, arith, Bytes, get_elem?, All, Option-cases,
}
use realtime_data_center.Base.Int.{ℤ}
use realtime_data_center.Base.Words.{IsInt64}
use realtime_data_center.Socket.{Frame, encode, header}
use realtime_data_center.Socket.Frames.{Fits, read_frame-encode}
use realtime_data_center.Socket.Stream.{encode_all}
use realtime_data_center.Link.{
  Request, Answer, Link, send_request, send_answer, heart_beat_timeout, Reaction, SocketOutput,
  handle_frame, answer_frame, request_frame,
}
use realtime_data_center.Link.Session.{remove_at}
use realtime_data_center.Link.Duplex.{
  ended, End, Move, ask, accept, give_up, reply, withdraw, idle, look, fail_read, fail_write,
  Reason, no_heart_beat, read_failed, write_failed, has_output, Moved, moved, stopped, react,
  look_at, move,
}
use realtime_data_center.Link.Duplex.Members.{
  All-In, Sub, In-lt, All-get_elem?, All-remove_at, All-store_request,
}
use realtime_data_center.Link.Duplex.Reactions.{Answers, Reacted, handle_frame-Reacted}
use realtime_data_center.Link.Duplex.Invariant.{
  Small, IsFrom, IsOffer, Holds, Holds-peer, send-Holds, relink-Holds, take-Holds, offer-Holds,
  issue-Holds,
}
use realtime_data_center.Link.Duplex.Taking.{Both, react-Holds}

-- The moves that end a connection, and for which reason: no heart beat for too long, or an error of the
-- stream.
abbrev pub IsCause : Move → Reason → Type 0
IsCause (idle now) no_heart_beat = Unit {0}
IsCause fail_read read_failed = Unit {0}
IsCause fail_write write_failed = Unit {0}
IsCause _ _ = ⊥

-- How many requests take an order.
abbrev pub asks : List Move → ℕ
asks [] = 0
asks (ask cmd payload ∷ ms) = suc (asks ms)
asks (_ ∷ ms) = asks ms

-- A payload that fits in a frame, and clocks that are int64.
abbrev pub MoveFits : Move → Type 0
MoveFits (ask cmd payload) = Small payload
MoveFits (accept i time) = IsInt64 time
MoveFits (reply time) = IsInt64 time
MoveFits _ = Unit

look_at-encode :
    {S T : Type 0} (server : Bool) (notify : Option (SocketOutput S)) (now : ℤ) (taken : Bool)
    (f : Frame) (rest : Bytes) (me : End S) (peer : End T)
    → Fits f
    → look_at server notify now taken (encode f ++ rest) none me peer
      ≡ elim (handle_frame server notify now f (me.link, me.upper)) [
        | none ↦ stopped ended
        | some ((link, s), reaction) ↦
            moved (react taken f link s me reaction) (record peer { stream = rest })
      ]
unfolding look_at encode header
look_at-encode server notify now taken f rest me peer fits =
    rw (read_frame-encode f rest fits, look_at)

look_at-offering :
    {S T : Type 0} (server : Bool) (notify : Option (SocketOutput S)) (now : ℤ) (taken : Bool)
    (bs : Bytes) (a : Answer) (me : End S) (peer : End T)
    → look_at server notify now taken bs (some a) me peer ≡ moved me peer
unfolding look_at
look_at-offering server notify now taken [] a me peer = refl
look_at-offering server notify now taken (b ∷ bs) a me peer = refl

module _ {S T : Type 0} (server : Bool) where
  -- After a move both ends are as they should be, and the orders that are used up are counted; or the
  -- connection is over, for a reason that this move has.
  abbrev pub Fine : Move → ℕ → ℕ → Moved S T → Type 0
  Fine m n p (moved me peer) = Both server me peer × (me.link.order ≤ n) × (peer.link.order ≤ p)
  Fine m n p (stopped reason) = IsCause m reason

  module _ (notify : Option (SocketOutput S)) (answers : Answers notify) where
    look_at-Fine :
        (now : ℤ) (taken : Bool) (fs : List Frame) (o : Option Answer) (me : End S) (peer : End T)
        → Both server me peer
        → All (IsFrom (not server) peer.issued peer.served) fs
        → Fine
            (look now taken)
            me.link.order
            peer.link.order
            (look_at server notify now taken (encode_all fs) o me peer)
    unfolding look_at
    look_at-Fine now taken [] o me peer both from = (both, omega arith, omega arith)
    look_at-Fine now taken (f ∷ fs) (some a) me peer both from =
        rw (look_at-offering server notify now taken (encode f ++ encode_all fs) a me peer)
          (both, omega arith, omega arith)
    look_at-Fine now taken (f ∷ fs) none me peer both from =
        rw (look_at-encode server notify now taken f (encode_all fs) me peer from.0.0) (
          go (handle_frame server notify now f (me.link, me.upper))
            (handle_frame-Reacted server notify now f me.link me.upper answers))
      where
        peer' : End T
        peer' = record peer { stream = encode_all fs }

        both' : Both server me peer'
        both' = (
          Holds-peer server me peer peer' (λ x m. m) (λ x m. m) both.0,
          take-Holds (not server) peer me both.1 fs from.1,
        )

        go :
            (o : Option ((Link × S) × Reaction))
            → Reacted f me.link o
            → Fine (look now taken) me.link.order peer.link.order (elim o [
              | none ↦ stopped ended
              | some ((link, s), reaction) ↦ moved (react taken f link s me reaction) peer'
            ])
        go none r = absurd r
        go (some ((link, s), reaction)) r =
            let (kept, same) = react-Holds server me peer' both' f link s reaction taken from.0 r in
            (kept, omega (arith, same), omega arith)

    Fine-weaken : (a : Move) (n m p : ℕ) (x : Moved S T) → n ≤ m → Fine a n p x → Fine a m p x
    Fine-weaken a n m p (moved me peer) h (both, le, same) = (both, omega (arith, le, h), same)
    Fine-weaken a n m p (stopped reason) h e = e

    -- A change of this end that leaves its history.
    beside :
        (me me' : End S) (peer : End T)
        → Holds (not server) peer me
        → Sub me.issued me'.issued
        → Sub me.served me'.served
        → Holds server me' peer
        → Both server me' peer
    beside me me' peer h i s h' = (h', Holds-peer (not server) peer me me' i s h)

    accept-Fine :
        (i : ℕ) (time : ℤ) (r : Request) (me : End S) (peer : End T)
        → Both server me peer
        → IsInt64 time
        → get_elem? me.asked i ≡ some r
        → Both server
            (record me {
              link = (send_request server time r me.link).0;
              asked = remove_at i me.asked;
              stream = me.stream ++ (send_request server time r me.link).1;
            })
            peer
    unfolding send_request
    accept-Fine i time r me peer both t e =
        let issued = All-get_elem? _ i me.asked both.0.waiting e in
        let small = All-In (λ q. Small q.payload) me.issued r both.0.small issued in
        let lt = In-lt _ me.issued r both.0.orders issued in
        let fits : Fits (request_frame server time r) = record {
          time = t;
          order = omega (arith, lt, both.0.few);
          size = small;
        } in
        let link = (send_request server time r me.link).0 in
        let relinked =
          relink-Holds server me peer both.0 link (remove_at i me.asked) me.upper refl
            (All-remove_at _ i me.asked both.0.waiting)
            (All-store_request _ r me.link.ret_queue issued both.0.queued) in
        beside me _ peer both.1 (λ x m. m) (λ x m. m)
          (send-Holds server (record me { link = link; asked = remove_at i me.asked }) peer relinked
            (request_frame server time r) (fits, inl (refl, issued)))

    reply-Fine :
        (time : ℤ) (o : Option Answer) (me : End S) (peer : End T)
        → Both server me peer
        → IsOffer me.served o
        → IsInt64 time
        → Fine (reply time) me.link.order peer.link.order (elim o [
          | none ↦ moved me peer
          | some a ↦
              moved
                (record me { offered = none; stream = me.stream ++ send_answer server time a })
                peer
        ])
    unfolding send_answer
    reply-Fine time none me peer both offer t = (both, omega arith, omega arith)
    reply-Fine time (some a) me peer both (n, small, answered) t =
        let fits : Fits (answer_frame server time a) = record {
          time = t;
          order = n;
          size = small;
        } in
        (
          beside me _ peer both.1 (λ x m. m) (λ x m. m)
              (send-Holds server (record me { offered = none }) peer
                (offer-Holds server me peer both.0 none tt) (answer_frame server time a)
                (fits, inr (refl, answered))),
          omega arith,
          omega arith,
        )

    pub move-Fine :
        (m : Move) (me : End S) (peer : End T)
        → Both server me peer
        → MoveFits m
        → me.link.order + asks (m ∷ []) < 2 ^ 64
        → Fine m (me.link.order + asks (m ∷ [])) peer.link.order (move server notify m me peer)
    unfolding move
    move-Fine (ask cmd payload) me peer both fits few =
        let r : Request = record {
          order = (me.link.order + 1) % 2 ^ 64;
          cmd = cmd;
          payload = payload;
        } in
        let next : (me.link.order + 1) % 2 ^ 64 ≡ suc me.link.order = omega (arith, few) in
        (
          beside me _ peer both.1 (λ x. inr) (λ x m. m)
              (issue-Holds server me peer both.0 r next (omega (arith, few)) fits),
          omega (arith, next),
          omega arith,
        )
    move-Fine (accept i time) me peer both fits few = elim (Option-cases (get_elem? me.asked i)) [
      | inl e ↦ rw (e, move) (both, omega arith, omega arith)
      | inr (r, e) ↦
          rw (e, move) (accept-Fine i time r me peer both fits e, omega arith, omega arith)
    ]
    move-Fine (give_up i) me peer both fits few = (
      beside me _ peer both.1 (λ x m. m) (λ x m. m)
          (relink-Holds server me peer both.0 me.link (remove_at i me.asked) me.upper refl
            (All-remove_at _ i me.asked both.0.waiting) both.0.queued),
      omega arith,
      omega arith,
    )
    move-Fine (reply time) me peer both fits few =
        Fine-weaken (reply time) me.link.order (me.link.order + 0) peer.link.order _ (omega arith)
          (reply-Fine time me.offered me peer both both.0.offer fits)
    move-Fine withdraw me peer both fits few = (
      beside me _ peer both.1 (λ x m. m) (λ x m. m) (offer-Holds server me peer both.0 none tt),
      omega arith,
      omega arith,
    )
    move-Fine (idle now) me peer both fits few =
        elim (Bool-cases (heart_beat_timeout now me.link)) [
          | inl e ↦ rw e tt
          | inr e ↦ rw e (both, omega arith, omega arith)
        ]
    move-Fine (look now taken) me peer both fits few =
        Fine-weaken (look now taken) me.link.order (me.link.order + 0) peer.link.order _
          (omega arith)
          (subst
            (λ b.
              Fine (look now taken) me.link.order peer.link.order
                (look_at server notify now taken b me.offered me peer))
            (sym both.1.stream)
            (look_at-Fine now taken both.1.frames me.offered me peer both both.1.from))
    move-Fine fail_read me peer both fits few = tt
    move-Fine fail_write me peer both fits few =
        elim (Bool-cases (has_output me.asked me.offered)) [
          | inl e ↦ rw e tt
          | inr e ↦ rw e (both, omega arith, omega arith)
        ]

-- ===== src/Link/Duplex/Invariant.antt =====
-- socketApi/socket.go: what holds of the two ends of a connection, whoever moves.
use realtime_data_center.Base.{
  ℕ, suc, ◌^◌, ◌<◌, ◌-◌, ◌≡◌, refl, sym, ap, ◌∙◌, ◌⊎◌, inl, inr, Bool, List, [], ◌∷◌, ◌++◌, Option,
  none, some, arith, if◌then◌else◌, Bytes, length, All, All-weaken, All-append,
}
use realtime_data_center.Socket.{
  Frame, encode, server_request, server_ack, client_request, client_ack,
}
use realtime_data_center.Socket.Frames.{Fits}
use realtime_data_center.Socket.Stream.{encode_all}
use realtime_data_center.Link.{Request, Answer, Link}
use realtime_data_center.Link.Duplex.{End, request_of}
use realtime_data_center.Link.Duplex.Members.{In, Sub, Below, Below-weaken, encode_all-snoc}

abbrev pub Small : Bytes → Type 0
Small payload = length payload < 2 ^ 16 - 1

-- A request with this order was answered with this content.
abbrev pub Answered : List (Request × Bytes) → ℕ → Bytes → Type 0
Answered served order content = (q : Request) × In (q, content) served × (q.order ≡ order)

-- A frame from an end: one of the requests that took an order there, or an answer that was given there.
abbrev pub IsFrom : Bool → List Request → List (Request × Bytes) → Frame → Type 0
IsFrom server issued served f =
    Fits f
    × (((f.direction ≡ (if server then server_request else client_request))
          × In (request_of f) issued)
        ⊎ ((f.direction ≡ (if server then server_ack else client_ack))
            × Answered served f.order f.payload))

abbrev pub IsOffer : List (Request × Bytes) → Option Answer → Type 0
IsOffer served none = Unit
IsOffer served (some a) = (a.order < 2 ^ 64) × Small a.content × Answered served a.order a.content

-- What is true of one end beside the other.
pub record Holds {S T : Type 0} (server : Bool) (me : End S) (peer : End T) : Type 0 where
  pub waiting : All (λ r. In r me.issued) me.asked
  pub queued : All (λ r. In r me.issued) me.link.ret_queue
  pub orders : Below (suc me.link.order) me.issued
  pub few : me.link.order < 2 ^ 64
  pub small : All (λ r. Small r.payload) me.issued
  pub frames : List Frame
  pub stream : me.stream ≡ encode_all frames
  pub from : All (IsFrom server me.issued me.served) frames
  pub offer : IsOffer me.served me.offered
  pub served : All (λ x. In x.0 peer.issued) me.served
  pub got : All (λ x. In x peer.served × In x.0 me.issued) me.got

-- Histories only grow.
IsFrom-grow :
    (server : Bool) (issued issued' : List Request) (served served' : List (Request × Bytes))
    → Sub issued issued'
    → Sub served served'
    → (f : Frame) → IsFrom server issued served f
    → IsFrom server issued' served' f
IsFrom-grow server issued issued' served served' i s f (fits, inl (d, m)) =
    (fits, inl (d, i (request_of f) m))
IsFrom-grow server issued issued' served served' i s f (fits, inr (d, (q, m, e))) =
    (fits, inr (d, (q, s (q, f.payload) m, e)))

IsOffer-grow :
    (served served' : List (Request × Bytes)) (o : Option Answer)
    → Sub served served'
    → IsOffer served o
    → IsOffer served' o
IsOffer-grow served served' none s h = tt
IsOffer-grow served served' (some a) s (n, small, (q, m, e)) =
    (n, small, (q, s (q, a.content) m, e))

-- What happens to an end's history does the other no harm.
pub Holds-peer :
    {S T : Type 0} (server : Bool) (me : End S) (peer peer' : End T)
    → Sub peer.issued peer'.issued
    → Sub peer.served peer'.served
    → Holds server me peer
    → Holds server me peer'
Holds-peer server me peer peer' i s h = record {
  waiting = h.waiting;
  queued = h.queued;
  orders = h.orders;
  few = h.few;
  small = h.small;
  frames = h.frames;
  stream = h.stream;
  from = h.from;
  offer = h.offer;
  served = All-weaken _ _ me.served (λ x m. i x.0 m) h.served;
  got = All-weaken _ _ me.got (λ x m. (s x m.0, m.1)) h.got;
}

module _ {S T : Type 0} (server : Bool) (me : End S) (peer : End T) (h : Holds server me peer) where
  -- One more frame in the stream.
  pub send-Holds :
      (f : Frame)
      → IsFrom server me.issued me.served f
      → Holds server (record me { stream = me.stream ++ encode f }) peer
  send-Holds f from = record {
    waiting = h.waiting;
    queued = h.queued;
    orders = h.orders;
    few = h.few;
    small = h.small;
    frames = h.frames ++ f ∷ [];
    stream = ap (λ b. b ++ encode f) h.stream ∙ encode_all-snoc h.frames f;
    from = All-append _ h.frames (f ∷ []) h.from (from, tt);
    offer = h.offer;
    served = h.served;
    got = h.got;
  }

  -- A change of the link and of the requests that wait, all of which took an order here.
  pub relink-Holds :
      (link : Link) (asked : List Request) (s : S)
      → link.order ≡ me.link.order
      → All (λ r. In r me.issued) asked
      → All (λ r. In r me.issued) link.ret_queue
      → Holds server (record me { link = link; asked = asked; upper = s }) peer
  relink-Holds link asked s e a q = record {
    waiting = a;
    queued = q;
    orders = rw e h.orders;
    few = rw e h.few;
    small = h.small;
    frames = h.frames;
    stream = h.stream;
    from = h.from;
    offer = h.offer;
    served = h.served;
    got = h.got;
  }

  -- The other end takes the first frame of the stream.
  pub take-Holds :
      (fs : List Frame)
      → All (IsFrom server me.issued me.served) fs
      → Holds server (record me { stream = encode_all fs }) peer
  take-Holds fs from = record {
    waiting = h.waiting;
    queued = h.queued;
    orders = h.orders;
    few = h.few;
    small = h.small;
    frames = fs;
    stream = refl;
    from = from;
    offer = h.offer;
    served = h.served;
    got = h.got;
  }

  pub offer-Holds :
      (o : Option Answer) → IsOffer me.served o → Holds server (record me { offered = o }) peer
  offer-Holds o offer = record {
    waiting = h.waiting;
    queued = h.queued;
    orders = h.orders;
    few = h.few;
    small = h.small;
    frames = h.frames;
    stream = h.stream;
    from = h.from;
    offer = offer;
    served = h.served;
    got = h.got;
  }

  -- A request takes the next order.
  pub issue-Holds :
      (r : Request)
      → r.order ≡ suc me.link.order
      → suc me.link.order < 2 ^ 64
      → Small r.payload
      → Holds server
          (record me {
            link = record me.link { order = r.order };
            asked = r ∷ me.asked;
            issued = r ∷ me.issued;
          })
          peer
  issue-Holds r e few small = record {
    waiting = (inl refl, All-weaken _ _ me.asked (λ q. inr) h.waiting);
    queued = All-weaken _ _ me.link.ret_queue (λ q. inr) h.queued;
    orders = (omega arith, Below-weaken _ _ me.issued (omega (arith, e)) h.orders);
    few = omega (arith, e, few);
    small = (small, h.small);
    frames = h.frames;
    stream = h.stream;
    from =
        All-weaken _ _ h.frames
          (IsFrom-grow server me.issued (r ∷ me.issued) me.served me.served (λ q. inr) (λ q m. m))
          h.from;
    offer = h.offer;
    served = h.served;
    got = All-weaken _ _ me.got (λ x m. (m.0, inr m.1)) h.got;
  }

  -- An answer is given to a request of the other end.
  pub serve-Holds :
      (q : Request) (a : Answer)
      → In q peer.issued
      → a.order ≡ q.order
      → q.order < 2 ^ 64
      → Small a.content
      → Holds server (record me { offered = some a; served = (q, a.content) ∷ me.served }) peer
  serve-Holds q a m e n small = record {
    waiting = h.waiting;
    queued = h.queued;
    orders = h.orders;
    few = h.few;
    small = h.small;
    frames = h.frames;
    stream = h.stream;
    from =
        All-weaken _ _ h.frames
          (IsFrom-grow server me.issued me.issued me.served ((q, a.content) ∷ me.served) (λ q m. m)
            (λ x. inr))
          h.from;
    offer = (omega (arith, e, n), small, (q, inl refl, sym e));
    served = (m, h.served);
    got = h.got;
  }

  -- A request gets the answer with its order.
  pub get-Holds :
      (x : Request × Bytes)
      → In x peer.served × In x.0 me.issued
      → Holds server (record me { got = x ∷ me.got }) peer
  get-Holds x m = record {
    waiting = h.waiting;
    queued = h.queued;
    orders = h.orders;
    few = h.few;
    small = h.small;
    frames = h.frames;
    stream = h.stream;
    from = h.from;
    offer = h.offer;
    served = h.served;
    got = (m, h.got);
  }

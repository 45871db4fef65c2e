-- ===== src/Link/Duplex/Taking.antt =====
-- socketApi/socket.go: what the reader makes of a frame of the other end.
use realtime_data_center.Base.{
  ◌≡◌, refl, sym, ap, subst, ◌∙◌, inl, inr, Bool, true, false, not, ◌∷◌, some, if◌then◌else◌,
}
use realtime_data_center.Socket.{Frame, server_request, server_ack, client_request, client_ack}
use realtime_data_center.Link.{
  Request, Link, load_request, Reaction, answer, deliver, drop, is_request, is_ack,
}
use realtime_data_center.Link.Matching.{load_request-some}
use realtime_data_center.Link.Duplex.{End, request_of, react}
use realtime_data_center.Link.Duplex.Members.{
  All-In, In, In-unique, All-delete_request, All-load_request,
}
use realtime_data_center.Link.Duplex.Reactions.{Reacted}
use realtime_data_center.Link.Duplex.Invariant.{
  Answered, IsFrom, Holds, Holds-peer, relink-Holds, serve-Holds, get-Holds,
}

-- The two ends, each beside the other.
abbrev pub Both : {S T : Type 0} → Bool → End S → End T → Type 0
Both server me peer = Holds server me peer × Holds (not server) peer me

not_request : (b : Bool) → is_request (if b then server_ack else client_ack) ≡ false
not_request true = refl
not_request false = refl

not_ack : (b : Bool) → is_ack (if b then server_request else client_request) ≡ false
not_ack true = refl
not_ack false = refl

module _ {S T : Type 0} (server : Bool) where
  module _ (me : End S) (peer : End T) (both : Both server me peer) where
    -- What the reader takes from the other end: a request that was issued there, or an answer that was
    -- given there to a request of this end.
    request_issued :
        (f : Frame)
        → IsFrom (not server) peer.issued peer.served f
        → is_request f.direction ≡ true
        → In (request_of f) peer.issued
    request_issued f (fits, inl (d, i)) h = i
    request_issued f (fits, inr (d, w)) h = cc (not_request (not server), ap is_request d, h)

    answer_given :
        (f : Frame)
        → IsFrom (not server) peer.issued peer.served f
        → is_ack f.direction ≡ true
        → Answered peer.served f.order f.payload
    answer_given f (fits, inl (d, i)) h = cc (not_ack (not server), ap is_ack d, h)
    answer_given f (fits, inr (d, w)) h = w

    -- The request that waits under the order of an answer is the one that was answered.
    matched :
        (f : Frame) (r : Request)
        → Answered peer.served f.order f.payload
        → load_request f.order me.link.ret_queue ≡ some r
        → In (r, f.payload) peer.served × In r me.issued
    matched f r (q, given, e) found =
        let issued = All-load_request _ f.order me.link.ret_queue both.0.queued found in
        let asked = All-In (λ x. In x.0 me.issued) peer.served (q, f.payload) both.1.served given in
        let same =
          In-unique _ me.issued q r both.0.orders asked issued
            (e ∙ sym (load_request-some f.order me.link.ret_queue found)) in
        (subst (λ x. In (x, f.payload) peer.served) same given, issued)

    pub react-Holds :
        (f : Frame) (link : Link) (s : S) (reaction : Reaction) (taken : Bool)
        → IsFrom (not server) peer.issued peer.served f
        → Reacted f me.link (some ((link, s), reaction))
        → Both server (react taken f link s me reaction) peer
          × ((react taken f link s me reaction).link.order ≡ me.link.order)
    unfolding react
    react-Holds f link s drop taken from (o, q) = (
      (
        relink-Holds server me peer both.0 link me.asked s o both.0.waiting (rw q both.0.queued),
        Holds-peer (not server) peer me _ (λ x m. m) (λ x m. m) both.1,
      ),
      o,
    )
    react-Holds f link s (answer a) taken from (o, q, d, e, small) =
        let relinked =
          relink-Holds server me peer both.0 link me.asked s o both.0.waiting
            (rw q both.0.queued) in
        (
          (
            serve-Holds server (record me { link = link; upper = s }) peer relinked (request_of f) a
                (request_issued f from d) e from.0.order small,
            Holds-peer (not server) peer me _ (λ x m. m) (λ x. inr) both.1,
          ),
          o,
        )
    react-Holds f link s (deliver r content) taken from (o, q, d, found, c) =
        let relinked =
          relink-Holds server me peer both.0 link me.asked s o both.0.waiting
            (rw q (All-delete_request _ f.order me.link.ret_queue both.0.queued)) in
        (
          (
            if-got taken relinked (
                get-Holds server (record me { link = link; upper = s }) peer relinked (r, content)
                  (rw c (matched f r (answer_given f from d) found))),
            Holds-peer (not server) peer me _ (λ x m. m) (λ x m. m) both.1,
          ),
          o,
        )
      where
        if-got :
            (b : Bool)
            → Holds server (record me { link = link; upper = s }) peer
            → Holds server (record me { link = link; upper = s; got = (r, content) ∷ me.got }) peer
            → Holds server
                (record me {
                  link = link;
                  upper = s;
                  got = if b then (r, content) ∷ me.got else me.got;
                })
                peer
        if-got true x y = y
        if-got false x y = x

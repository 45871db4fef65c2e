-- ===== src/Socket/Stream.antt =====
-- socketApi/socket.go: the loop that reads a connection.
use realtime_data_center.Base.{
  ◌⊎◌, ℕ, zero, suc, ◌+◌, ◌%◌, ◌^◌, ◌<◌, ◌≤◌, ◌≡◌, ◌≢◌, refl, ap, inl, inr, List, [], ◌∷◌, ◌++◌,
  Option, none, some, arith, ◌==◌, length, length-append, take_exact, take_exact-some, get_elem?,
  Bytes, All, Bool-cases, Option-cases,
}
use realtime_data_center.Base.Int.{ℤ}
use realtime_data_center.Socket.{
  Frame, frame_end, encode, header, Received, received, closed, crash, read_body, read_fields,
  read_frame, ended, crashed, unfinished, read_loop,
}
use realtime_data_center.Socket.Frames.{Fits, read_frame-encode}
use realtime_data_center.Socket.Sound.{read_frame_cases, head_marks}

read_body_shorter :
    (t : ℤ) (d o c len : ℕ) (input : Bytes) {f : Frame} {rest : Bytes}
    → read_body t d o c len input ≡ received f rest
    → length rest ≤ length input
unfolding read_body
read_body_shorter t d o c len input {f} {rest} e =
    elim (Option-cases (take_exact ((len + 1) % 2 ^ 16) input)) [
      | inl h ↦ cc (rw (h, read_body) at e)
      | inr ((real, r), h) ↦
          let (split, size) = take_exact-some ((len + 1) % 2 ^ 16) input h in
          let less : length r ≤ length input =
            omega (arith, ap length split, length-append real r) in
          elim (Option-cases (get_elem? real len)) [
            | inl g ↦ cc (rw (h, read_body, g, read_body) at e)
            | inr (b, g) ↦ elim (Bool-cases (b == frame_end)) [
              | inr n ↦ cc (rw (h, read_body, g, read_body, n) at e)
              | inl y ↦
                  let same : r ≡ rest = cc (rw (h, read_body, g, read_body, y) at e) in
                  omega (arith, less, ap length same)
            ]
          ]
    ]

read_fields_shorter :
    (fields input : Bytes) {f : Frame} {rest : Bytes}
    → read_fields fields input ≡ received f rest
    → length rest ≤ length input
unfolding read_fields
read_fields_shorter fields input e = grind (arith, read_body_shorter)

read_frame_shorter :
    (input : Bytes) {f : Frame} {rest : Bytes}
    → read_frame input ≡ received f rest
    → length rest < length input
read_frame_shorter input e =
    let (head, after, split, size, h) = read_frame_cases input e in
    let (fields, _, g) = head_marks head after h in
    omega
      (arith, ap length split, length-append head after, size, read_fields_shorter fields after g)

Received-cases :
    (r : Received)
    → (r ≡ closed) ⊎ (r ≡ crash) ⊎ ((f : Frame) × (rest : Bytes) × (r ≡ received f rest))
Received-cases closed = inl refl
Received-cases crash = inr (inl refl)
Received-cases (received f rest) = inr (inr (f, rest, refl))

-- Whatever arrives on a connection and however frames are handled, the reader ends: as many rounds as
-- there are bytes, and one more, are enough.
pub read_loop_ends {ℓ} :
    {S : Type ℓ} (fuel : ℕ) (handle : Frame → S → Option S) (input : Bytes) (s : S)
    → length input < fuel
    → read_loop fuel handle input s ≢ unfinished
unfolding read_loop
read_loop_ends zero handle input s h e = elim h [ ]
read_loop_ends (suc fuel) handle input s h e = elim (Received-cases (read_frame input)) [
  | inl r ↦ cc (rw (r, read_loop) at e)
  | inr (inl r) ↦ cc (rw (r, read_loop) at e)
  | inr (inr (f, rest, r)) ↦ elim (Option-cases (handle f s)) [
    | inl q ↦ cc (rw (r, read_loop, q, read_loop) at e)
    | inr (s', q) ↦
        read_loop_ends fuel handle rest s' (omega (arith, read_frame_shorter input r))
          (rw (r, read_loop, q, read_loop) at e)
  ]
]

-- The packets of several frames, one behind the other.
abbrev pub encode_all : List Frame → Bytes
encode_all [] = []
encode_all (f ∷ fs) = encode f ++ encode_all fs

-- The handling of several frames, one after another.
abbrev pub feed {ℓ} : {S : Type ℓ} → (Frame → S → Option S) → List Frame → S → Option S
feed handle [] s = some s
feed handle (f ∷ fs) s = elim (handle f s) [ none ↦ none | some s' ↦ feed handle fs s' ]

nothing_more : read_frame [] ≡ closed
unfolding read_frame
nothing_more = refl

length-encode : (f : Frame) → 0 < length (encode f)
unfolding encode header
length-encode f = omega arith

-- What the writer at one end sends, of frames whose fields fit, the reader at the other end handles
-- frame by frame, in the same order, each once and nothing else; a round for each byte, and one more, is
-- fuel enough.
pub read_loop-encode_all {ℓ} :
    {S : Type ℓ} (fuel : ℕ) (handle : Frame → S → Option S) (fs : List Frame) (s : S)
    → All Fits fs
    → length (encode_all fs) < fuel
    → read_loop fuel handle (encode_all fs) s
      ≡ elim (feed handle fs s) [ none ↦ crashed | some s' ↦ ended s' ]
unfolding read_loop
read_loop-encode_all zero handle fs s a h = elim h [ ]
read_loop-encode_all (suc fuel) handle [] s a h = rw (nothing_more, read_loop)
read_loop-encode_all (suc fuel) handle (f ∷ fs) s (fits, a) h = elim (Option-cases (handle f s)) [
  | inl q ↦ rw (read_frame-encode f (encode_all fs) fits, read_loop, q, read_loop)
  | inr (s', q) ↦
      rw (read_frame-encode f (encode_all fs) fits, read_loop, q, read_loop)
        (read_loop-encode_all fuel handle fs s' a
          (omega (arith, length-append (encode f) (encode_all fs), length-encode f)))
]

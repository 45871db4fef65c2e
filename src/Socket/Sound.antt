-- ===== src/Socket/Sound.antt =====
-- socketApi/socket.go: the bytes that a frame was read from.
use realtime_data_center.Base.{
  ◌↔◌, subst, ℕ, suc, ◌+◌, ◌-◌, ◌%◌, ◌^◌, ◌<◌, ◌≡◌, refl, sym, ap, ◌∙◌, inl, inr, [], ◌∷◌, ◌++◌,
  append_assoc, append-nil, some, arith, ◌==◌, length, get_elem?, take, take_exact, take_exact-some,
  take-get_elem?, get_elem?-lt, length-take, All-split, Bytes, All, Bool-cases, Option-cases,
}
use realtime_data_center.Base.Int.{ℤ, wrap64}
use realtime_data_center.Base.Words.{
  wrap64-IsInt64, IsByte, IsInt64, le_bytes, le_value, word64, le_bytes-le_value, le_value-lt,
  word64-wrap64,
}
use realtime_data_center.Socket.{
  Frame, frame_end, frame_start, version, header, encode, received, read_uint, read_body,
  read_fields, read_header, read_frame,
}
use realtime_data_center.Socket.Frames.{read_frame-encode, Fits}

read_uint-some :
    (k : ℕ) (input : Bytes) {v : ℕ} {rest : Bytes}
    → All IsByte input
    → read_uint k input ≡ some (v, rest)
    → (input ≡ le_bytes k v ++ rest) × All IsByte rest × (v < 256 ^ k)
unfolding read_uint
read_uint-some k input {v} {rest} a e = elim (Option-cases (take_exact k input)) [
  | inl h ↦ cc (rw (h, read_uint) at e)
  | inr ((b, r), h) ↦
      let (split, size) = take_exact-some k input h in
      let (ab, ar) = All-split IsByte b r (rw split at a) in
      let value : le_value b ≡ v = cc (rw (h, read_uint) at e) in
      let left : r ≡ rest = cc (rw (h, read_uint) at e) in
      (
        split ∙ rw (← value, ← left, ← size, le_bytes-le_value b ab),
        rw (← left) ar,
        rw (← value, ← size) (le_value-lt b ab),
      )
]

-- What follows the header of a frame that is read.
read_body_received :
    (t : ℤ) (d o c len : ℕ) (input : Bytes) {f : Frame} {rest : Bytes}
    → len < 2 ^ 16
    → read_body t d o c len input ≡ received f rest
    → (f.time_stamp ≡ t)
      × (f.direction ≡ d)
      × (f.order ≡ o)
      × (f.cmd ≡ c)
      × (length f.payload ≡ len)
      × (len < 2 ^ 16 - 1)
      × (input ≡ f.payload ++ frame_end ∷ rest)
unfolding read_body
read_body_received t d o c len input {f} {rest} lt e =
    elim (Option-cases (take_exact ((len + 1) % 2 ^ 16) input)) [
      | inl h ↦ cc (rw (h, read_body) at e)
      | inr ((real, r), h) ↦ elim (Option-cases (get_elem? real len)) [
        | inl g ↦ cc (rw (h, read_body, g, read_body) at e)
        | inr (b, g) ↦ elim (Bool-cases (b == frame_end)) [
          | inr n ↦ cc (rw (h, read_body, g, read_body, n) at e)
          | inl y ↦
              let made : Frame = record {
                time_stamp = t;
                direction = d;
                order = o;
                cmd = c;
                payload = take len real;
              } in
              let read : received made r ≡ received f rest =
                rw (h, read_body, g, read_body, y) at e in
              let same : made ≡ f = cc read in
              let (split, size) = take_exact-some ((len + 1) % 2 ^ 16) input h in
              let whole : length real ≡ suc len = omega (arith, size, get_elem?-lt len real g) in
              let end : b ≡ frame_end = ground arith in
              (
                ap (λ x. x.time_stamp) (sym same),
                ap (λ x. x.direction) (sym same),
                ap (λ x. x.order) (sym same),
                ap (λ x. x.cmd) (sym same),
                ap (λ x. length x.payload) (sym same) ∙ length-take len real (omega (arith, whole)),
                omega (arith, size, get_elem?-lt len real g),
                split
                    ∙ ap (λ x. x ++ r) (take-get_elem? len real whole g)
                    ∙ append_assoc (take len real) (b ∷ []) r
                    ∙ cc (end, ap (λ x. x.payload) same, read),
              )
        ]
      ]
    ]

IsByte-some :
    (input : Bytes) {v : ℕ} {rest : Bytes}
    → All IsByte input
    → read_uint 1 input ≡ some (v, rest)
    → (input ≡ v ∷ rest) × All IsByte rest
unfolding le_bytes
IsByte-some input {v} {rest} a e =
    let (split, left, small) = read_uint-some 1 input a e in
    let same : v % 256 ≡ v = omega (arith, small) in (split ∙ ap (λ b. b ∷ rest) same, left)

fields_end :
    (w d o c len : ℕ) (more : Bytes)
    → length (le_bytes 8 w ++ (d ∷ (le_bytes 8 o ++ (c ∷ (le_bytes 2 len ++ more))))) ≡ 20
    → more ≡ []
unfolding le_bytes
fields_end w d o c len [] h = refl
fields_end w d o c len (x ∷ more) h = absurd (omega (arith, h))

read_fields_received :
    (fields input : Bytes) {f : Frame} {rest : Bytes}
    → All IsByte fields
    → length fields ≡ 20
    → read_fields fields input ≡ received f rest
    → Fits f
      × (fields
          ≡ le_bytes 8 (word64 f.time_stamp)
            ++ (f.direction
                ∷ (le_bytes 8 f.order ++ (f.cmd ∷ le_bytes 2 (length f.payload % 2 ^ 16)))))
      × (input ≡ f.payload ++ frame_end ∷ rest)
unfolding read_fields
read_fields_received fields input {f} {rest} a twenty e = elim (Option-cases (read_uint 8 fields)) [
  | inl h ↦ cc (rw (h, read_fields) at e)
  | inr ((w, f1), h1) ↦ elim (Option-cases (read_uint 1 f1)) [
    | inl h ↦ cc (rw (h1, read_fields, h, read_fields) at e)
    | inr ((d, f2), h2) ↦ elim (Option-cases (read_uint 8 f2)) [
      | inl h ↦ cc (rw (h1, read_fields, h2, read_fields, h, read_fields) at e)
      | inr ((o, f3), h3) ↦ elim (Option-cases (read_uint 1 f3)) [
        | inl h ↦ cc (rw (h1, read_fields, h2, read_fields, h3, read_fields, h, read_fields) at e)
        | inr ((c, f4), h4) ↦ elim (Option-cases (read_uint 2 f4)) [
          | inl h ↦ cc (
              rw
                (h1, read_fields, h2, read_fields, h3, read_fields, h4, read_fields, h, read_fields)
                at e)
          | inr ((len, f5), h5) ↦
              let body : read_body (wrap64 w 0) d o c len input ≡ received f rest =
                rw
                  (
                    h1, read_fields, h2, read_fields, h3, read_fields, h4, read_fields, h5,
                    read_fields,
                  )
                  at e in
              let (s1, a1, small1) = read_uint-some 8 fields a h1 in
              let (s2, a2) = IsByte-some f1 a1 h2 in
              let (s3, a3, small3) = read_uint-some 8 f2 a2 h3 in
              let (s4, a4) = IsByte-some f3 a3 h4 in
              let (s5, _, small5) = read_uint-some 2 f4 a4 h5 in
              let (time, direction, order, cmd, size, limit, whole) =
                read_body_received (wrap64 w 0) d o c len input (omega (arith, small5)) body in
              let joined : fields
                  ≡ le_bytes 8 w ++ (d ∷ (le_bytes 8 o ++ (c ∷ (le_bytes 2 len ++ f5)))) =
                cc (s1, s2, s3, s4, s5) in
              let none_left = fields_end w d o c len f5 (ap length (sym joined) ∙ twenty) in
              let word : word64 f.time_stamp ≡ w =
                ap word64 time ∙ word64-wrap64 w (omega (arith, small1)) in
              let short : length f.payload % 2 ^ 16 ≡ len = omega (arith, size, limit) in
              (
                record {
                  time = subst IsInt64 (sym time) (wrap64-IsInt64 w (omega (arith, small1)));
                  order = omega (arith, order, small3);
                  size = omega (arith, size, limit);
                },
                cc (none_left, append-nil (le_bytes 2 len), word, short, direction, order, cmd),
                whole,
              )
        ]
      ]
    ]
  ]
]

pub head_marks :
    (head input : Bytes) {f : Frame} {rest : Bytes}
    → read_header head input ≡ received f rest
    → (fields : Bytes) × (head ≡ frame_start ∷ version ∷ fields)
      × (read_fields fields input ≡ received f rest)
unfolding read_header
head_marks [] input e = cc
head_marks (x ∷ []) input e = cc
head_marks (x ∷ y ∷ fields) input e = elim (Bool-cases (x == frame_start)) [
  | inr n ↦ cc (rw n at e)
  | inl p ↦ elim (Bool-cases (y == version)) [
    | inr n ↦ cc (rw (p, n) at e)
    | inl q ↦ (fields, ground arith, rw (p, q) at e)
  ]
]

pub read_frame_cases :
    (input : Bytes) {f : Frame} {rest : Bytes}
    → read_frame input ≡ received f rest
    → (head : Bytes) × (after : Bytes) × (input ≡ head ++ after)
      × (length head ≡ 22)
      × (read_header head after ≡ received f rest)
unfolding read_frame
read_frame_cases input e = elim (Option-cases (take_exact 22 input)) [
  | inl h ↦ cc (rw (h, read_frame) at e)
  | inr ((head, after), h) ↦
      let (split, size) = take_exact-some 22 input h in
      (head, after, split, size, rw (h, read_frame) at e)
]

-- Where the bytes on the connection are bytes, a frame is read only from the packet that the writer
-- makes of it, and then its fields fit.
pub read_frame_received :
    (input rest : Bytes) (f : Frame)
    → All IsByte input
    → read_frame input ≡ received f rest
    → (input ≡ encode f ++ rest) × Fits f
unfolding encode header
read_frame_received input rest f a e =
    let (head, after, split, size, h) = read_frame_cases input e in
    let (fields, marks, g) = head_marks head after h in
    let bytes : All IsByte head = (All-split IsByte head after (rw split at a)).0 in
    let (fits, header_is, body_is) =
      read_fields_received fields after (rw marks at bytes).1.1
        (omega (arith, size, ap length marks)) g in
    (
      split
          ∙ ap (λ h. h ++ after) (marks ∙ ap (λ b. frame_start ∷ version ∷ b) header_is)
          ∙ ap (λ b. header f.time_stamp f.direction f.order f.cmd (length f.payload) ++ b)
              (body_is ∙ sym (append_assoc f.payload (frame_end ∷ []) rest))
          ∙ sym (
              append_assoc (header f.time_stamp f.direction f.order f.cmd (length f.payload)) _
                rest),
      fits,
    )

-- Of bytes that arrive, the reader reads a frame, and leaves the rest, exactly when they are the packet
-- that the writer makes of that frame, followed by that rest, and the frame's fields fit.
pub read_frame_iff :
    (input rest : Bytes) (f : Frame)
    → All IsByte input
    → (read_frame input ≡ received f rest) ↔ ((input ≡ encode f ++ rest) × Fits f)
read_frame_iff input rest f a =
    (read_frame_received input rest f a, λ h. ap read_frame h.0 ∙ read_frame-encode f rest h.1)

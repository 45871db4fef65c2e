-- ===== src/Socket/Frames.antt =====
-- socketApi/socket.go: frames and their bytes.
use realtime_data_center.Base.{
  get_elem?-take, false, ◌==◌, suc, take_exact_within, take-append_length, get_elem?-append_length,
  get_elem?, length-append, append_assoc, ◌≢◌, ℕ, ◌+◌, ◌-◌, ◌%◌, ◌^◌, ◌<◌, ◌≡◌, refl, sym, ap, ◌∙◌,
  [], ◌∷◌, ◌++◌, append-nil, some, arith, length, take_exact, take_exact-append, Bytes,
}
use realtime_data_center.Base.Int.{ℤ}
use realtime_data_center.Base.Words.{
  IsInt64, le_bytes, le_value, word64, length-le_bytes, le_value-le_bytes, word64-lt, wrap64-word64,
}
use realtime_data_center.Socket.{
  closed, received, frame_end, crash, encode, Frame, header, read_uint, read_body, read_fields,
  read_header, read_frame,
}

-- A frame whose fields fit their places, and whose length can be counted with the end mark.
pub record Fits (f : Frame) : Type 0 where
  pub time : IsInt64 f.time_stamp
  pub order : f.order < 2 ^ 64
  pub size : length f.payload < 2 ^ 16 - 1

take_exact_prefix :
    {n : ℕ} (xs ys : Bytes) → length xs ≡ n → take_exact n (xs ++ ys) ≡ some (xs, ys)
take_exact_prefix xs ys e = rw (← e) (take_exact-append xs ys)

read_uint-le_bytes :
    (k v : ℕ) (rest : Bytes) → v < 256 ^ k → read_uint k (le_bytes k v ++ rest) ≡ some (v, rest)
unfolding read_uint
read_uint-le_bytes k v rest h =
    rw (take_exact_prefix (le_bytes k v) rest (length-le_bytes k v), read_uint)
      (rw (le_value-le_bytes k v h))

read_uint-le_bytes_last : (k v : ℕ) → v < 256 ^ k → read_uint k (le_bytes k v) ≡ some (v, [])
read_uint-le_bytes_last k v h =
    ap (read_uint k) (sym (append-nil (le_bytes k v))) ∙ read_uint-le_bytes k v [] h

read_uint_byte : (b : ℕ) (rest : Bytes) → read_uint 1 (b ∷ rest) ≡ some (b, rest)
unfolding read_uint le_value
read_uint_byte b rest = let e : b + 0 ≡ b = omega arith in rw e

length-header : (t : ℤ) (d o c len : ℕ) → length (header t d o c len) ≡ 22
unfolding header le_bytes
length-header t d o c len = refl

read_fields-header :
    (t : ℤ) (d o c len : ℕ) (rest : Bytes)
    → IsInt64 t
    → o < 2 ^ 64
    → read_fields
        (le_bytes 8 (word64 t) ++ (d ∷ (le_bytes 8 o ++ (c ∷ le_bytes 2 (len % 2 ^ 16)))))
        rest
      ≡ read_body t d o c (len % 2 ^ 16) rest
unfolding read_fields
read_fields-header t d o c len rest ht ho =
    rw
      (
        read_uint-le_bytes 8 (word64 t) (d ∷ (le_bytes 8 o ++ (c ∷ le_bytes 2 (len % 2 ^ 16))))
            (omega (arith, word64-lt t)),
        read_fields,
        read_uint_byte d (le_bytes 8 o ++ (c ∷ le_bytes 2 (len % 2 ^ 16))),
        read_fields,
        read_uint-le_bytes 8 o (c ∷ le_bytes 2 (len % 2 ^ 16)) (omega arith),
        read_fields,
        read_uint_byte c (le_bytes 2 (len % 2 ^ 16)),
        read_fields,
        read_uint-le_bytes_last 2 (len % 2 ^ 16) (omega arith),
        read_fields,
      )
      (ap (λ z. read_body z d o c (len % 2 ^ 16) rest) (wrap64-word64 t ht))

read_header-header :
    (t : ℤ) (d o c len : ℕ) (rest : Bytes)
    → IsInt64 t
    → o < 2 ^ 64
    → read_header (header t d o c len) rest ≡ read_body t d o c (len % 2 ^ 16) rest
unfolding read_header header
read_header-header t d o c len rest ht ho = read_fields-header t d o c len rest ht ho

read_frame_prefix :
    (input : Bytes) {head rest : Bytes}
    → take_exact 22 input ≡ some (head, rest)
    → read_frame input ≡ read_header head rest
unfolding read_frame
read_frame_prefix input e = rw (e, read_frame)

read_frame-header :
    (t : ℤ) (d o c len : ℕ) (rest : Bytes)
    → IsInt64 t
    → o < 2 ^ 64
    → read_frame (header t d o c len ++ rest) ≡ read_body t d o c (len % 2 ^ 16) rest
read_frame-header t d o c len rest ht ho =
    read_frame_prefix _ (take_exact_prefix (header t d o c len) rest (length-header t d o c len))
    ∙ read_header-header t d o c len rest ht ho

read_body_fits :
    (t : ℤ) (d o c : ℕ) (payload rest : Bytes)
    → length payload < 2 ^ 16 - 1
    → read_body t d o c (length payload) (payload ++ frame_end ∷ rest)
      ≡ received
          (record { time_stamp = t; direction = d; order = o; cmd = c; payload = payload })
          rest
unfolding read_body
read_body_fits t d o c payload rest h = rw (
  whole,
  read_body,
  get_elem?-append_length payload [] frame_end,
  read_body,
  take-append_length payload (frame_end ∷ []),
)
  where
    whole :
        take_exact ((length payload + 1) % 2 ^ 16) (payload ++ frame_end ∷ rest)
        ≡ some (payload ++ frame_end ∷ [], rest)
    whole =
        ap (take_exact _) (sym (append_assoc payload (frame_end ∷ []) rest))
        ∙ take_exact_prefix (payload ++ frame_end ∷ []) rest
            (omega (arith, length-append payload (frame_end ∷ [])))

read_body_closed :
    (t : ℤ) (d o c k : ℕ) (payload rest : Bytes) {b : ℕ}
    → k < 2 ^ 16 - 1
    → get_elem? payload k ≡ some b
    → b ≢ frame_end
    → read_body t d o c k (payload ++ rest) ≡ closed
unfolding read_body
read_body_closed t d o c k payload rest {b} h e end =
    let (r, whole) = take_exact_within k payload rest e in
    let size : (k + 1) % 2 ^ 16 ≡ suc k = omega arith in
    let other : (b == frame_end) ≡ false = ground arith in
    rw (size, read_body, whole, read_body, get_elem?-take k payload, e, read_body, other)

read_frame-encode_body :
    (f : Frame) (rest : Bytes)
    → IsInt64 f.time_stamp
    → f.order < 2 ^ 64
    → read_frame (encode f ++ rest)
      ≡ read_body f.time_stamp f.direction f.order f.cmd
          (length f.payload % 2 ^ 16)
          (f.payload ++ frame_end ∷ rest)
unfolding encode
read_frame-encode_body f rest ht ho =
    ap read_frame (
      append_assoc (header f.time_stamp f.direction f.order f.cmd (length f.payload)) _ rest
      ∙ ap (λ b. header f.time_stamp f.direction f.order f.cmd (length f.payload) ++ b)
          (append_assoc f.payload (frame_end ∷ []) rest))
    ∙ read_frame-header f.time_stamp f.direction f.order f.cmd (length f.payload) _ ht ho

-- A packet that the writer makes of a frame whose fields fit, with a payload of less than 65535 bytes,
-- is read back as that frame, and what follows it on the connection is left.
pub read_frame-encode :
    (f : Frame) (rest : Bytes) → Fits f → read_frame (encode f ++ rest) ≡ received f rest
read_frame-encode f rest h =
    let size : length f.payload % 2 ^ 16 ≡ length f.payload = omega (arith, h.size) in
    read_frame-encode_body f rest h.time h.order
    ∙ ap (λ n. read_body f.time_stamp f.direction f.order f.cmd n (f.payload ++ frame_end ∷ rest))
        size
    ∙ read_body_fits f.time_stamp f.direction f.order f.cmd f.payload rest h.size

-- A header that declares 65535 bytes ends the program, whatever follows it and even if nothing does:
-- the size of the buffer wraps around to 0.
pub read_frame_crash :
    (t : ℤ) (d o c : ℕ) (rest : Bytes)
    → IsInt64 t
    → o < 2 ^ 64
    → read_frame (header t d o c (2 ^ 16 - 1) ++ rest) ≡ crash
unfolding read_body
read_frame_crash t d o c rest ht ho = read_frame-header t d o c (2 ^ 16 - 1) rest ht ho ∙ refl

-- The length that is sent is that of the payload modulo 65536. Where the payload holds a byte there,
-- as only one of 65536 bytes or more does, and that is no end mark, and the length sent is not 65535,
-- the reader at the other end closes the connection.
pub read_frame_oversized :
    (f : Frame) (rest : Bytes) {b : ℕ}
    → IsInt64 f.time_stamp
    → f.order < 2 ^ 64
    → length f.payload % 2 ^ 16 ≢ 2 ^ 16 - 1
    → get_elem? f.payload (length f.payload % 2 ^ 16) ≡ some b
    → b ≢ frame_end
    → read_frame (encode f ++ rest) ≡ closed
read_frame_oversized f rest {b} ht ho ne e end =
    read_frame-encode_body f rest ht ho
    ∙ read_body_closed f.time_stamp f.direction f.order f.cmd (length f.payload % 2 ^ 16) f.payload
        (frame_end ∷ rest) (omega arith) e end

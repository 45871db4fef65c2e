-- ===== src/Value/Marshal/Chunks.antt =====
-- encoding/json: the escapes of `json.Marshal`, resolved again.
use realtime_data_center.Base.{
  ℕ, zero, suc, ◌-◌, ◌<◌, ◌≤◌, ◌≡◌, refl, sym, ap, ◌∙◌, ◌⊎◌, inl, inr, true, false, ◌&&◌, [], ◌∷◌,
  ◌++◌, Bytes, arith, ltb, Bool-cases, length, length-append, drop, &&-eq-true, ltb→lt,
}
use realtime_data_center.Value.Marshal.{escape_text}
use realtime_data_center.Golib.Unquote.{
  rune_size, rune_width, between, second_byte, later_bytes, unquote_fuel, unquote, valid_fuel,
  valid_utf8,
}
use realtime_data_center.Value.Marshal.Unescape.{rune_size-ascii}
use realtime_data_center.Value.Marshal.Runes.{
  Chunk, ascii-Chunk, two-Chunk, three-Chunk, four-Chunk, rune_size-high,
}

Width : ℕ → Type 0
Width w = (w ≡ 0) ⊎ (w ≡ 2) ⊎ (w ≡ 3) ⊎ (w ≡ 4)

Width-cases : (c : ℕ) → Width (rune_width c)
unfolding rune_width Width
Width-cases c = elim (Bool-cases (ltb c 0xc2)) [
  | inl e ↦ inl (rw e refl)
  | inr a ↦ elim (Bool-cases (ltb c 0xe0)) [
    | inl e ↦ inr (inl (rw (a, e) refl))
    | inr b ↦ elim (Bool-cases (ltb c 0xf0)) [
      | inl e ↦ inr (inr (inl (rw (a, b, e) refl)))
      | inr d ↦ elim (Bool-cases (ltb c 0xf5)) [
        | inl e ↦ inr (inr (inr (rw (a, b, d, e) refl)))
        | inr e ↦ inl (rw (a, b, d, e) refl)
      ]
    ]
  ]
]

rune_size-single : (c : ℕ) → ltb c 0x80 ≡ false → rune_size (c ∷ []) ≡ 0
unfolding rune_size
rune_size-single c h = rw h refl

rune_size-none :
    (c b : ℕ) (s : Bytes)
    → ltb c 0x80 ≡ false
    → (second_byte c b && later_bytes (rune_width c - 2) s) ≡ false
    → rune_size (c ∷ b ∷ s) ≡ 0
unfolding rune_size
rune_size-none c b s h k = rw (h, k) refl

module _ (g c b : ℕ) (high : ltb c 0x80 ≡ false) where
  -- The bytes behind the second of a rune of three or four bytes.
  three_of :
      (s : Bytes)
      → rune_width c ≡ 3
      → (second_byte c b && later_bytes 1 s) ≡ true
      → valid_fuel g (drop 1 s) ≡ true
      → Chunk g (c ∷ b ∷ s)
  unfolding later_bytes
  three_of [] w n v = cc (((&&-eq-true (second_byte c b) false).0 n).1)
  three_of (d ∷ s) w n v =
      let (k, later) = (&&-eq-true _ _).0 n in
      three-Chunk g c b d s high w k ((&&-eq-true _ _).0 later).0 v

  four_of :
      (s : Bytes)
      → rune_width c ≡ 4
      → (second_byte c b && later_bytes 2 s) ≡ true
      → valid_fuel g (drop 2 s) ≡ true
      → Chunk g (c ∷ b ∷ s)
  unfolding later_bytes
  four_of [] w n v = cc (((&&-eq-true (second_byte c b) false).0 n).1)
  four_of (d ∷ []) w n v = cc (
      ((&&-eq-true (between 0x80 0xbf d) false).0
        ((&&-eq-true (second_byte c b) (between 0x80 0xbf d && false)).0 n).1).1)
  four_of (d ∷ e ∷ s) w n v =
      let (k, later) = (&&-eq-true _ _).0 n in
      let (kd, last) = (&&-eq-true _ _).0 later in
      four-Chunk g c b d e s high w k kd ((&&-eq-true _ _).0 last).0 v

high-Chunk :
    (g c : ℕ) (s : Bytes) → ltb c 0x80 ≡ false → valid_fuel (suc g) (c ∷ s) ≡ true → Chunk g (c ∷ s)
unfolding valid_fuel Width
high-Chunk g c [] h v = cc (rw (rune_size-single c h, valid_fuel) at v)
high-Chunk g c (b ∷ s) h v =
    elim (Bool-cases (second_byte c b && later_bytes (rune_width c - 2) s)) [
      | inr n ↦ cc (rw (rune_size-none c b s h n, valid_fuel) at v)
      | inl n ↦
          let size = rune_size-high c b s h n in
          elim (Width-cases c) [
            | inl w ↦ cc (rw (size ∙ w, valid_fuel) at v)
            | inr (inl w) ↦
                two-Chunk g c b s h w ((&&-eq-true _ _).0 n).0 (rw (size ∙ w, valid_fuel) at v)
            | inr (inr (inl w)) ↦ three_of g c b h s w (rw w at n) (rw (size ∙ w, valid_fuel) at v)
            | inr (inr (inr w)) ↦ four_of g c b h s w (rw w at n) (rw (size ∙ w, valid_fuel) at v)
          ]
    ]

any-Chunk : (g c : ℕ) (s : Bytes) → valid_fuel (suc g) (c ∷ s) ≡ true → Chunk g (c ∷ s)
unfolding valid_fuel
any-Chunk g c s v = elim (Bool-cases (ltb c 0x80)) [
  | inl e ↦
      let low : c < 0x80 = ltb→lt c 0x80 e in
      ascii-Chunk g c s low (rw (rune_size-ascii c s low, valid_fuel) at v)
  | inr e ↦ high-Chunk g c s e v
]

unquote_fuel_nil : (f : ℕ) → unquote_fuel f (escape_text []) ≡ []
unfolding unquote_fuel escape_text
unquote_fuel_nil zero = refl
unquote_fuel_nil (suc f) = refl

unquote_fuel-escape_text :
    (g : ℕ) (s : Bytes)
    → valid_fuel g s ≡ true
    → (f : ℕ) → length (escape_text s) ≤ f
    → unquote_fuel f (escape_text s) ≡ s
unfolding valid_fuel
unquote_fuel-escape_text g [] v f h = unquote_fuel_nil f
unquote_fuel-escape_text zero (c ∷ s) v f h = cc
unquote_fuel-escape_text (suc g) (c ∷ s) v f h =
    go (any-Chunk g c s v) (unquote_fuel-escape_text g) f h
  where
    go :
        (k : Chunk g (c ∷ s))
        → ((r : Bytes)
            → valid_fuel g r ≡ true
            → (f : ℕ) → length (escape_text r) ≤ f
            → unquote_fuel f (escape_text r) ≡ r)
        → (f : ℕ) → length (escape_text (c ∷ s)) ≤ f
        → unquote_fuel f (escape_text (c ∷ s)) ≡ c ∷ s
    go k rest zero h =
        absurd (
          omega (arith, ap length k.shape, length-append k.written (escape_text k.rest), k.long, h))
    go k rest (suc f) h =
        ap (unquote_fuel (suc f)) k.shape
        ∙ k.reads f (escape_text k.rest)
        ∙ ap (λ t. k.rune ++ t)
            (rest k.rest k.valid f (
              omega (
                arith,
                ap length k.shape,
                length-append k.written (escape_text k.rest),
                k.long,
                h,
              )))
        ∙ sym k.split

-- What Marshal escapes, Unmarshal resolves: a string that is UTF-8 comes back.
pub unquote-escape_text : (s : Bytes) → valid_utf8 s ≡ true → unquote (escape_text s) ≡ s
unfolding unquote
unquote-escape_text s v =
    unquote_fuel-escape_text (length s) s v (length (escape_text s)) (omega arith)

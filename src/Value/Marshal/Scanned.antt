-- ===== src/Value/Marshal/Scanned.antt =====
-- `json.Marshal`: its text of a value, and what the scanner takes it for.
use realtime_data_center.Base.{
  subst, ℕ, ◌≡◌, refl, sym, ap, ◌∙◌, inl, inr, true, false, List, [], ◌∷◌, ◌++◌, append_assoc, some,
  Bytes, arith, ◌==◌, Bool-cases,
}
use realtime_data_center.Value.Marshal.{quote, escape_text}
use realtime_data_center.Value.Marshal.Escape.{scan_quoted}
use realtime_data_center.Value.Marshal.Chunks.{unquote-escape_text}
use realtime_data_center.Value.Marshal.Canonical.{IsText}
use realtime_data_center.Golib.Scan.{
  scanned, Syntax, Members, Frame, Scanner, failed, string_literal, value_frame, members_frame,
  want_value, want_first, after_value, in_string, scan, feed, begin_value, end_value, end_string,
  is_space, parse,
}
use realtime_data_center.Golib.Reading.{IsEnd, Reads}

pub scan_failed : (p : Bytes) (frames : List Frame) → scan p (failed, frames) ≡ (failed, frames)
unfolding scan feed
scan_failed [] frames = refl
scan_failed (c ∷ p) frames = scan_failed p frames

begin_value_space :
    (frames : List Frame) (d : ℕ) → is_space d ≡ true → begin_value frames d ≡ (want_value, frames)
unfolding begin_value
begin_value_space frames d e = rw e refl

feed_first_space :
    (frames : List Frame) (d : ℕ)
    → is_space d ≡ true
    → feed (want_first, frames) d ≡ (want_first, frames)
unfolding feed
feed_first_space frames d e = rw e refl

feed_first :
    (frames : List Frame) (d : ℕ)
    → is_space d ≡ false
    → (d == b']') ≡ false
    → feed (want_first, frames) d ≡ begin_value frames d
unfolding feed
feed_first frames d e f = rw (e, f) refl

-- No value begins with the end of an array.
bracket_reads : {A : Type 0} (p : Bytes) (v : Syntax) (d : ℕ) → d ≡ b']' → Reads (d ∷ p) v → A
unfolding scan feed end_value begin_value
bracket_reads {A} p v d f h = absurd (
    sym (scan_failed (p ++ 0x20 ∷ []) [])
    ∙ subst (λ b. scan (p ++ 0x20 ∷ []) (begin_value [] b) ≡ (after_value v, [])) f
        (h 0x20 [] [] (inr (inr (inr refl)))))
  where
    absurd : Path Scanner (failed, []) (after_value v, []) → A
    absurd e = cc

-- The first element of an array is read as the others are.
pub scan_first :
    (p : Bytes) (v : Syntax) (c : ℕ) (rest : Bytes) (frames : List Frame)
    → Reads p v
    → scan (p ++ c ∷ rest) (want_first, frames) ≡ scan (p ++ c ∷ rest) (want_value, frames)
unfolding scan feed end_value begin_value
scan_first [] v c rest frames h = absurd (h 0x20 [] [] (inr (inr (inr refl))))
  where
    absurd : {A : Type 0} → Path Scanner (want_value, []) (after_value v, []) → A
    absurd e = cc
scan_first (d ∷ p) v c rest frames h = elim (Bool-cases (is_space d)) [
  | inl e ↦
      ap (scan (p ++ c ∷ rest)) (feed_first_space frames d e)
      ∙ scan_first p v c rest frames (λ b more outer ends.
        ap (scan (p ++ b ∷ more)) (sym (begin_value_space outer d e)) ∙ h b more outer ends)
      ∙ ap (scan (p ++ c ∷ rest)) (sym (begin_value_space frames d e))
  | inr e ↦ elim (Bool-cases (d == b']')) [
    | inl f ↦ bracket_reads p v d (ground arith) h
    | inr f ↦ ap (scan (p ++ c ∷ rest)) (feed_first frames d e f)
  ]
]

pub quote-Reads : (s : Bytes) → IsText s → Reads (quote s) (string_literal s)
unfolding scan feed begin_value quote end_string
quote-Reads s h c rest frames ends =
    ap (λ p. scan p (in_string false [], frames))
      (append_assoc (escape_text s) (b'"' ∷ []) (c ∷ rest))
    ∙ scan_quoted false s (c ∷ rest) frames
    ∙ ap (λ t. scan rest (end_value (string_literal t) frames c)) (unquote-escape_text s h)

-- A member of an object, behind the first quote of its key.
pub scan_member :
    (k x : Bytes) (v : Syntax) (acc : Members) (frames : List Frame) (c : ℕ) (rest : Bytes)
    → IsText k
    → Reads x v
    → IsEnd c
    → scan
        (escape_text k ++ b'"' ∷ b':' ∷ (x ++ c ∷ rest))
        (in_string true [], members_frame acc ∷ frames)
      ≡ scan rest (end_value v (value_frame acc k ∷ frames) c)
unfolding scan feed end_string
scan_member k x v acc frames c rest h reads ends =
    scan_quoted true k (b':' ∷ (x ++ c ∷ rest)) (members_frame acc ∷ frames)
    ∙ ap (λ t. scan (x ++ c ∷ rest) (want_value, value_frame acc t ∷ frames))
        (unquote-escape_text k h)
    ∙ reads c rest (value_frame acc k ∷ frames) ends

-- A text that reads as a value, alone.
pub parse-Reads : (p : Bytes) (v : Syntax) → Reads p v → parse p ≡ some v
unfolding parse scanned end_value scan
parse-Reads p v h = ap scanned (h 0x20 [] [] (inr (inr (inr refl))))

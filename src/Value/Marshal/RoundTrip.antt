-- ===== src/Value/Marshal/RoundTrip.antt =====
-- `json.Marshal` and `json.Unmarshal`: there and back.
use realtime_data_center.Base.{
  ℕ, ◌≡◌, refl, ap, ◌∙◌, inl, inr, true, false, List, [], ◌∷◌, ◌++◌, append_assoc, Option, Bytes,
}
use realtime_data_center.Value.{
  Value, Items, Fields, null, boolean, float, text, array, object, nil, cons, end, field,
}
use realtime_data_center.Value.Marshal.{
  marshal, marshal_items, marshal_fields, quote, sort_entries, insert_entry, comma_entries,
  escape_text,
}
use realtime_data_center.Value.Marshal.Canonical.{
  Below, IsText, IsCanonical, AllCanonical, AllOrdered, literal, literal_items, literal_fields,
  to_value-literal,
}
use realtime_data_center.Golib.Scan.{
  Elements, Members, Frame, array_literal, object_literal, no_elements, element, no_members, member,
  elements_frame, members_frame, want_value, want_first, want_first_key, want_key, after_value,
  in_string, scan, feed, begin_value, end_value,
}
use realtime_data_center.Golib.Reading.{Reads}
use realtime_data_center.Golib.Unmarshal.{unmarshal_value}
use realtime_data_center.Value.Marshal.Scanned.{scan_first, quote-Reads, scan_member, parse-Reads}

module _ (float_text : ℕ → Bytes) (parse_float : Bytes → Option ℕ) where
  insert_entry-Below :
      (k x : Bytes) (fs : Fields)
      → Below k fs
      → insert_entry (k, x) (marshal_fields float_text fs) ≡ (k, x) ∷ marshal_fields float_text fs
  unfolding insert_entry marshal
  insert_entry-Below k x end h = refl
  insert_entry-Below k x (field j v fs) (h, _, _) = rw h refl

  sort_entries-AllOrdered :
      (fs : Fields)
      → AllOrdered float_text parse_float fs
      → sort_entries (marshal_fields float_text fs) ≡ marshal_fields float_text fs
  unfolding sort_entries marshal IsCanonical
  sort_entries-AllOrdered end h = refl
  sort_entries-AllOrdered (field k v fs) (_, _, below, hs) =
      ap (insert_entry (k, marshal float_text v)) (sort_entries-AllOrdered fs hs)
      ∙ insert_entry-Below k (marshal float_text v) fs below

  -- What follows an element, and a member.
  after_item : Items → Bytes → Bytes
  after_item nil rest = b']' ∷ rest
  after_item (cons w ys) rest = b',' ∷ (marshal_items float_text (cons w ys) ++ b']' ∷ rest)

  items_shape :
      (v : Value) (xs : Items) (rest : Bytes)
      → marshal_items float_text (cons v xs) ++ b']' ∷ rest
        ≡ marshal float_text v ++ after_item xs rest
  unfolding marshal after_item
  items_shape v nil rest = refl
  items_shape v (cons w ys) rest = append_assoc (marshal float_text v) _ (b']' ∷ rest)

  after_entry : Fields → Bytes → Bytes
  after_entry end rest = b'}' ∷ rest
  after_entry (field j w gs) rest =
      b',' ∷ (comma_entries (marshal_fields float_text (field j w gs)) ++ b'}' ∷ rest)

  entries_shape :
      (k : Bytes) (v : Value) (fs : Fields) (rest : Bytes)
      → comma_entries (marshal_fields float_text (field k v fs)) ++ b'}' ∷ rest
        ≡ b'"' ∷ (escape_text k ++ b'"' ∷ b':' ∷ (marshal float_text v ++ after_entry fs rest))
  unfolding marshal after_entry comma_entries quote
  entries_shape k v end rest = simp (append_assoc)
  entries_shape k v (field j w gs) rest = simp (append_assoc)

  -- The elements are read as what they are, and the members' keys and values.
  abbrev AllRead : Items → Type 0
  AllRead nil = Unit {0}
  AllRead (cons v xs) = Reads (marshal float_text v) (literal float_text parse_float v) × AllRead xs

  abbrev MembersRead : Fields → Type 0
  MembersRead end = Unit {0}
  MembersRead (field k v fs) =
      IsText k × Reads (marshal float_text v) (literal float_text parse_float v) × MembersRead fs

  first_item :
      (v : Value) (xs : Items) (rest : Bytes) (frames : List Frame)
      → Reads (marshal float_text v) (literal float_text parse_float v)
      → scan (marshal float_text v ++ after_item xs rest) (want_first, frames)
        ≡ scan (marshal float_text v ++ after_item xs rest) (want_value, frames)
  unfolding after_item
  first_item v nil rest frames h = scan_first _ _ b']' rest frames h
  first_item v (cons w ys) rest frames h = scan_first _ _ b',' _ frames h

  items-scan :
      (v : Value) (xs : Items) (acc : Elements) (frames : List Frame) (rest : Bytes)
      → AllRead (cons v xs)
      → scan (marshal float_text v ++ after_item xs rest) (want_value, elements_frame acc ∷ frames)
        ≡ scan rest (
          after_value (array_literal (literal_items float_text parse_float (cons v xs) acc)),
          frames,
        )
  unfolding literal after_item end_value
  items-scan v nil acc frames rest (h, _) =
      h b']' rest (elements_frame acc ∷ frames) (inr (inr (inl refl)))
  items-scan v (cons w ys) acc frames rest (h, hs) =
      h b',' _ (elements_frame acc ∷ frames) (inl refl)
      ∙ ap
          (λ p.
            scan p (
              want_value,
              elements_frame (element acc (literal float_text parse_float v)) ∷ frames,
            ))
          (items_shape w ys rest)
      ∙ items-scan w ys (element acc (literal float_text parse_float v)) frames rest hs

  fields-scan :
      (k : Bytes) (v : Value) (fs : Fields) (acc : Members) (frames : List Frame) (rest : Bytes)
      → MembersRead (field k v fs)
      → scan
          (escape_text k ++ b'"' ∷ b':' ∷ (marshal float_text v ++ after_entry fs rest))
          (in_string true [], members_frame acc ∷ frames)
        ≡ scan rest (
          after_value (object_literal (literal_fields float_text parse_float (field k v fs) acc)),
          frames,
        )
  unfolding literal after_entry end_value feed scan
  fields-scan k v end acc frames rest (valid, h, _) =
      scan_member k (marshal float_text v) _ acc frames b'}' rest valid h (inr (inl refl))
  fields-scan k v (field j w gs) acc frames rest (valid, h, hs) =
      scan_member k (marshal float_text v) _ acc frames b',' _ valid h (inl refl)
      ∙ ap
          (λ p.
            scan p
              (want_key, members_frame (member acc k (literal float_text parse_float v)) ∷ frames))
          (entries_shape j w gs rest)
      ∙ fields-scan j w gs (member acc k (literal float_text parse_float v)) frames rest hs

  array-Reads :
      (xs : Items)
      → AllRead xs
      → Reads (marshal float_text (array xs)) (literal float_text parse_float (array xs))
  unfolding scan feed begin_value marshal literal
  array-Reads nil h c rest frames ends = refl
  array-Reads (cons v xs) h c rest frames ends =
      ap (λ p. scan p (want_first, elements_frame no_elements ∷ frames))
        (append_assoc (marshal_items float_text (cons v xs)) (b']' ∷ []) (c ∷ rest)
          ∙ items_shape v xs (c ∷ rest))
      ∙ first_item v xs (c ∷ rest) (elements_frame no_elements ∷ frames) h.0
      ∙ items-scan v xs no_elements frames (c ∷ rest) h

  object-Reads :
      (fs : Fields)
      → AllOrdered float_text parse_float fs
      → MembersRead fs
      → Reads (marshal float_text (object fs)) (literal float_text parse_float (object fs))
  unfolding scan feed begin_value marshal literal
  object-Reads end ordered h c rest frames ends = refl
  object-Reads (field k v fs) ordered h c rest frames ends =
      ap
        (λ (es : List (Bytes × Bytes)).
          scan ((comma_entries es ++ b'}' ∷ []) ++ c ∷ rest)
            (want_first_key, members_frame no_members ∷ frames))
        (sort_entries-AllOrdered (field k v fs) ordered)
      ∙ ap (λ p. scan p (want_first_key, members_frame no_members ∷ frames))
          (append_assoc (comma_entries (marshal_fields float_text (field k v fs))) (b'}' ∷ [])
              (c ∷ rest)
            ∙ entries_shape k v fs (c ∷ rest))
      ∙ fields-scan k v fs no_members frames (c ∷ rest) h

  mutual
    unfolding scan feed begin_value marshal literal IsCanonical

    -- The text of a value in canonical form is that value's, wherever a value is expected.
    pub marshal-Reads :
        (v : Value)
        → IsCanonical float_text parse_float v
        → Reads (marshal float_text v) (literal float_text parse_float v)
    marshal-Reads null h c rest frames ends = refl
    marshal-Reads (boolean true) h c rest frames ends = refl
    marshal-Reads (boolean false) h c rest frames ends = refl
    marshal-Reads (float n) (h, _) c rest frames ends = h c rest frames ends
    marshal-Reads (text s) h c rest frames ends = quote-Reads s h c rest frames ends
    marshal-Reads (array xs) h c rest frames ends =
        array-Reads xs (all_read xs h) c rest frames ends
    marshal-Reads (object fs) h c rest frames ends =
        object-Reads fs h (members_read fs h) c rest frames ends

    all_read : (xs : Items) → AllCanonical float_text parse_float xs → AllRead xs
    all_read nil h = tt
    all_read (cons v xs) (h, hs) = (marshal-Reads v h, all_read xs hs)

    members_read : (fs : Fields) → AllOrdered float_text parse_float fs → MembersRead fs
    members_read end h = tt
    members_read (field k v fs) (valid, h, _, hs) = (valid, marshal-Reads v h, members_read fs hs)

  -- `json.Unmarshal` gives back what `json.Marshal` was given, if it is in canonical form.
  pub unmarshal_value-marshal :
      (v : Value)
      → IsCanonical float_text parse_float v
      → unmarshal_value parse_float (marshal float_text v) ≡ (v, false)
  unfolding unmarshal_value
  unmarshal_value-marshal v h =
      rw
        (
          parse-Reads (marshal float_text v) (literal float_text parse_float v) (marshal-Reads v h),
          unmarshal_value,
        )
        (to_value-literal float_text parse_float v h)

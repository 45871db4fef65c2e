-- ===== src/Control/Delivery.antt =====
-- component/visitorsControl.go: which listeners a write reaches, and with what.
use realtime_data_center.Base.{
  ℕ, ◌≡◌, refl, sym, ap, ◌∙◌, subst, true, false, [], ◌∷◌, Option, none, some, inl, inr, arith,
  if◌then◌else◌, Bytes, bytes_eq, bytes_eq_iff, Dict, lookup, lookup-insert, lookup-delete,
  Distinct, All, All-insert, All-lookup, Bool-cases, Option-cases,
}
use realtime_data_center.Base.Int.{ℤ}
use realtime_data_center.Path.{input_from_string, output2string}
use realtime_data_center.Path.RoundTrip.{IsParsed, input_from_string-output2string}
use realtime_data_center.Value.{Value}
use realtime_data_center.Visitor.{
  ReadResult, VisitorBasicType, VisitorRwaitAndBuffer, Race, is_nil_result, insert_update,
}
use realtime_data_center.Json.{read}
use realtime_data_center.Affect.{LongPollReadControl, remove}
use realtime_data_center.Control.Notify.{
  Loop, cached_read, deliver, notify_one, notify_loop, affected_read_return,
}

-- What becomes of an affected listener's entry: with nothing to read it stays; otherwise it holds the
-- update, or is gone if the update failed.
unfoldable pub told :
    Race
    → ReadResult
    → VisitorRwaitAndBuffer
    → Bytes
    → ℤ
    → Option VisitorRwaitAndBuffer
    → Option VisitorRwaitAndBuffer
told race ret v visitor_name timestamp old =
    let (v', e) = insert_update race v ret visitor_name timestamp in
    if is_nil_result ret then old else elim e [ none ↦ some v' | some _ ↦ none ]

deliver_lem :
    (race : Race) (k j : Bytes) (v : VisitorRwaitAndBuffer) (ret : ReadResult)
    (visitor_name : Bytes) (timestamp : ℤ) (table : LongPollReadControl) (errors : Bytes)
    → is_nil_result ret ≡ false
    → lookup j (deliver race k v ret visitor_name timestamp table errors).0 ≡ (
        if bytes_eq k j
        then told race ret v visitor_name timestamp (lookup j table)
        else lookup j table)
unfolding deliver told remove
deliver_lem race k j v ret visitor_name timestamp table errors h =
    elim (Option-cases (insert_update race v ret visitor_name timestamp).1) [
      | inl e ↦ rw (e, deliver, h, lookup-insert k j _ table)
      | inr (err, e) ↦ rw (e, deliver, h, lookup-delete k j table)
    ]

module _ (float_text : ℕ → Bytes) (json : Value) where
  -- A kept result is what the path of its text reads.
  abbrev Kept : Bytes × ReadResult → Type 0
  Kept e = e.1 ≡ read float_text json (record { path = input_from_string e.0; name = [] })

  read_any :
      (b : VisitorBasicType)
      → IsParsed b.path
      → read float_text json b
        ≡ read float_text json
            (record { path = input_from_string (output2string b.path); name = [] })
  unfolding read
  read_any b h = rw (input_from_string-output2string b.path h)

  cached_read_lem :
      (v : VisitorRwaitAndBuffer) (cache : Dict ReadResult)
      → IsParsed v.path
      → All Kept cache
      → ((cached_read float_text json v cache).0 ≡ read float_text json v.basic)
        × All Kept (cached_read float_text json v cache).1
  unfolding cached_read
  cached_read_lem v cache h a = elim (Option-cases (lookup (output2string v.path) cache)) [
    | inl e ↦
        rw (e, cached_read)
          (
            refl,
            All-insert Kept (output2string v.path) _ cache (λ j q. rw q (read_any v.basic h)) a,
          )
    | inr (r, e) ↦
        rw (e, cached_read)
          (All-lookup Kept (output2string v.path) cache a e ∙ sym (read_any v.basic h), a)
  ]

  module _ (races : Bytes → Race) (visitor_name : Bytes) (timestamp : ℤ) where
    told_at :
        Bytes → VisitorRwaitAndBuffer → Option VisitorRwaitAndBuffer → Option VisitorRwaitAndBuffer
    unfolding told
    told_at k v old = told (races k) (read float_text json v.basic) v visitor_name timestamp old

    notify_one_lem :
        (k j : Bytes) (v : VisitorRwaitAndBuffer) (loop : Loop)
        → IsParsed v.path
        → All Kept loop.already_json
        → lookup j (notify_one float_text races json visitor_name timestamp (k, v) loop).table
          ≡ (if bytes_eq k j then told_at k v (lookup j loop.table) else lookup j loop.table)
    unfolding notify_one told_at
    notify_one_lem k j v loop h a =
        let same = (cached_read_lem v loop.already_json h a).0 in
        elim (Bool-cases (is_nil_result (cached_read float_text json v loop.already_json).0)) [
          | inl e ↦ rw (e, notify_one) (unchanged (rw same at e))
          | inr e ↦
              rw (e, notify_one)
                (deliver_lem (races k) k j v _ visitor_name timestamp loop.table loop.errors e
                  ∙ ap
                      (λ r.
                        if bytes_eq k j
                        then told (races k) r v visitor_name timestamp (lookup j loop.table)
                        else lookup j loop.table)
                      same)
        ]
      where
        unchanged :
            is_nil_result (read float_text json v.basic) ≡ true
            → lookup j loop.table
              ≡ (if bytes_eq k j then told_at k v (lookup j loop.table) else lookup j loop.table)
        unchanged e = ground arith

    notify_one-Kept :
        (k : Bytes) (v : VisitorRwaitAndBuffer) (loop : Loop)
        → IsParsed v.path
        → All Kept loop.already_json
        → All Kept
            (notify_one float_text races json visitor_name timestamp (k, v) loop).already_json
    unfolding notify_one
    notify_one-Kept k v loop h a =
        let kept = (cached_read_lem v loop.already_json h a).1 in
        elim (Bool-cases (is_nil_result (cached_read float_text json v loop.already_json).0)) [
          | inl e ↦ rw (e, notify_one) kept
          | inr e ↦ rw (e, notify_one) kept
        ]

    notify_loop_lem :
        (affected : Dict VisitorRwaitAndBuffer) (loop : Loop) (j : Bytes)
        → Distinct affected
        → All (λ e. IsParsed e.1.path) affected
        → All Kept loop.already_json
        → lookup j (notify_loop float_text races json visitor_name timestamp affected loop).table
          ≡ elim (lookup j affected) [
            | none ↦ lookup j loop.table
            | some v ↦ told_at j v (lookup j loop.table)
          ]
    unfolding notify_loop lookup
    notify_loop_lem [] loop j d p a = refl
    notify_loop_lem ((k, v) ∷ affected) loop j (h, d) (p, ps) a =
        let rest = notify_loop_lem affected _ j d ps (notify_one-Kept k v loop p a) in
        elim (Bool-cases (bytes_eq k j)) [
          | inl e ↦
              let same = (bytes_eq_iff k j).0 e in
              rw e (
                rest
                ∙ rw (subst (λ i. lookup i affected ≡ none) same h) (
                    notify_one_lem k j v loop p a
                    ∙ rw e (ap (λ i. told_at i v (lookup j loop.table)) same)))
          | inr e ↦ rw e (
              rest
              ∙ ap (λ o. elim (lookup j affected) [ none ↦ o | some w ↦ told_at j w o ])
                  (notify_one_lem k j v loop p a ∙ rw e))
        ]

-- Every affected listener is told, once, what the tree reads at its path; no other entry changes.
pub lookup-affected_read_return :
    (float_text : ℕ → Bytes) (races : Bytes → Race) (json : Value) (visitor_name : Bytes)
    (timestamp : ℤ) (affected : Dict VisitorRwaitAndBuffer) (table : LongPollReadControl)
    (j : Bytes)
    → Distinct affected
    → All (λ e. IsParsed e.1.path) affected
    → lookup j (affected_read_return float_text races json visitor_name timestamp affected table).0
      ≡ elim (lookup j affected) [
        | none ↦ lookup j table
        | some v ↦
            told (races j) (read float_text json v.basic) v visitor_name timestamp (lookup j table)
      ]
unfolding affected_read_return told_at
lookup-affected_read_return float_text races json visitor_name timestamp affected table j d ps =
    notify_loop_lem float_text json races visitor_name timestamp affected
      (record { table = table; already_json = []; errors = [] }) j d ps tt

-- ===== src/Control/Listeners.antt =====
-- component/visitorsControl.go: the table of listeners while listeners are told.
use realtime_data_center.Base.{
  ℕ, sym, ap, ◌∙◌, inl, inr, [], ◌∷◌, Bytes, Dict, insert, insert-Distinct, All, All-insert,
  All-filter_dict, Bool-cases, Option-cases,
}
use realtime_data_center.Base.Int.{ℤ}
use realtime_data_center.Value.{Value}
use realtime_data_center.Visitor.{
  ReadResult, VisitorRwaitAndBuffer, Race, is_nil_result, visitor_string, insert_update,
}
use realtime_data_center.Visitor.Buffer.{insert_update_bounded, insert_update_lem}
use realtime_data_center.Affect.{LongPollReadControl, affect}
use realtime_data_center.Affect.Registry.{Entry, Inv, remove-Inv}
use realtime_data_center.Control.Notify.{
  Loop, cached_read, deliver, notify_one, notify_loop, affected_read_return,
}

pub insert-Inv :
    (k : Bytes) (v : VisitorRwaitAndBuffer) (table : LongPollReadControl)
    → Entry (k, v)
    → Inv table
    → Inv (insert k v table)
insert-Inv k v table e i = record {
  distinct = insert-Distinct k v table i.distinct;
  entries = All-insert Entry k v table (λ j q. rw q e) i.entries;
}

insert_update-Entry :
    (race : Race) (k : Bytes) (v : VisitorRwaitAndBuffer) (ret : ReadResult) (name : Bytes) (ts : ℤ)
    → Entry (k, v)
    → Entry (k, (insert_update race v ret name ts).0)
insert_update-Entry race k v ret name ts (key, bound, parsed) =
    let kept = (insert_update_lem race v ret name ts bound).2 in
    (
      key ∙ ap visitor_string (sym kept),
      insert_update_bounded race v ret name ts bound,
      rw kept parsed,
    )

deliver-Inv :
    (race : Race) (k : Bytes) (v : VisitorRwaitAndBuffer) (ret : ReadResult) (name : Bytes) (ts : ℤ)
    (table : LongPollReadControl) (errors : Bytes)
    → Entry (k, v)
    → Inv table
    → Inv (deliver race k v ret name ts table errors).0
unfolding deliver
deliver-Inv race k v ret name ts table errors e i =
    elim (Option-cases (insert_update race v ret name ts).1) [
      | inl h ↦
          rw (h, deliver) (insert-Inv k _ table (insert_update-Entry race k v ret name ts e) i)
      | inr (x, h) ↦ rw (h, deliver) (remove-Inv k table i)
    ]

module _ (float_text : ℕ → Bytes) where
  notify_one-Inv :
      (races : Bytes → Race) (json : Value) (name : Bytes) (ts : ℤ)
      (e : Bytes × VisitorRwaitAndBuffer) (loop : Loop)
      → Entry e
      → Inv loop.table
      → Inv (notify_one float_text races json name ts e loop).table
  unfolding notify_one
  notify_one-Inv races json name ts (k, v) loop e i =
      elim (Bool-cases (is_nil_result (cached_read float_text json v loop.already_json).0)) [
        | inl h ↦ rw (h, notify_one) i
        | inr h ↦
            rw (h, notify_one)
              (deliver-Inv (races k) k v (cached_read float_text json v loop.already_json).0 name ts
                loop.table loop.errors e i)
      ]

  notify_loop-Inv :
      (races : Bytes → Race) (json : Value) (name : Bytes) (ts : ℤ)
      (affected : Dict VisitorRwaitAndBuffer) (loop : Loop)
      → All Entry affected
      → Inv loop.table
      → Inv (notify_loop float_text races json name ts affected loop).table
  unfolding notify_loop
  notify_loop-Inv races json name ts [] loop a i = i
  notify_loop-Inv races json name ts (e ∷ affected) loop (h, a) i =
      notify_loop-Inv races json name ts affected _ a (notify_one-Inv races json name ts e loop h i)

  pub affected_read_return-Inv :
      (races : Bytes → Race) (json : Value) (name : Bytes) (ts : ℤ) (road : Bytes)
      (table : LongPollReadControl)
      → Inv table
      → Inv (affected_read_return float_text races json name ts (affect road table) table).0
  unfolding affected_read_return affect
  affected_read_return-Inv races json name ts road table i =
      notify_loop-Inv races json name ts _ _ (All-filter_dict Entry _ table i.entries) i

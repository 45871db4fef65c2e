-- ===== src/Control/Updates.antt =====
-- component/visitorsControl.go: a reader that waits while a write reaches its listener.
use realtime_data_center.Base.{
  ℕ, zero, suc, ◌≡◌, refl, ap, ◌∙◌, ◌⊎◌, inl, inr, true, false, [], ◌∷◌, ◌++◌, Option, none, some,
  arith, Bytes, bytes_eq_refl, length, drop, lookup,
}
use realtime_data_center.Base.Int.{ℤ}
use realtime_data_center.Path.{NodePath, input_from_string, output2string}
use realtime_data_center.Path.RoundTrip.{input_from_string-IsParsed}
use realtime_data_center.Value.{Value}
use realtime_data_center.Visitor.{
  ReadResult, VisitorBasicType, VisitorRwaitAndBuffer, Race, set_visitor, set_result,
  visitor_string, is_nil_result, insert_update, new_visitor_rwait_and_buffer,
}
use realtime_data_center.Visitor.Buffer.{insert_update_lem}
use realtime_data_center.Json.{read}
use realtime_data_center.Affect.{whether_contain}
use realtime_data_center.Affect.Contain.{whether_contain-output2string}
use realtime_data_center.Affect.Registry.{Inv, registered, apply_for_lem, apply_for-Inv}
use realtime_data_center.Control.{VisitorsControl, WriteRequest}
use realtime_data_center.Control.Delivery.{told}
use realtime_data_center.Control.Serve.{Around, after_write}
use realtime_data_center.Control.Calls.{Wait, start_read, finish_read}
use realtime_data_center.Control.Requests.{lookup-after_write}
use realtime_data_center.Control.Waiting.{finish_read_lem}

registered-basic :
    (input : VisitorBasicType) (old : Option VisitorRwaitAndBuffer)
    → (registered input old).basic ≡ input
unfolding registered new_visitor_rwait_and_buffer
registered-basic input none = refl
registered-basic input (some v) = refl

drop_nil : (n : ℕ) {A : Type 0} → drop {A = A} n [] ≡ []
drop_nil zero = refl
drop_nil (suc n) = refl

-- An update in time, of a listener with an empty buffer, is what its buffer then holds.
told_first :
    (race : Race) (ret : ReadResult) (v : VisitorRwaitAndBuffer) (writer : Bytes) (timestamp : ℤ)
    (old : Option VisitorRwaitAndBuffer)
    → race.late ≡ false
    → v.buffer ≡ []
    → is_nil_result ret ≡ false
    → (w : VisitorRwaitAndBuffer) × (told race ret v writer timestamp old ≡ some w)
      × (w.buffer ≡ set_result writer ret timestamp ∷ [])
unfolding told
told_first race ret v writer timestamp old late empty full =
    let left : drop race.taken v.buffer ≡ [] = ap (drop race.taken) empty ∙ drop_nil race.taken in
    let (_, _, _, in_time, _, _) =
      insert_update_lem race v ret writer timestamp (omega (arith, ap length empty)) in
    let (buffer, error) = in_time late (omega (arith, ap length left)) in
    (
      (insert_update race v ret writer timestamp).0,
      rw (full, error),
      buffer ∙ ap (λ q. q ++ set_result writer ret timestamp ∷ []) left,
    )

related :
    (a b rest : NodePath)
    → (a ≡ b ++ rest) ⊎ (b ≡ a ++ rest)
    → whether_contain (output2string a) (output2string b) ≡ true
related a b rest (inl h) = rw h (whether_contain-output2string b rest).1
related a b rest (inr h) = rw h (whether_contain-output2string a rest).0

module _ (float_text : ℕ → Bytes) (env : Around) (wait : Wait) (rec : WriteRequest) (json : Value)
    (name road : Bytes) (rest : NodePath) where
  told_then_read :
      (c : VisitorsControl) (v : VisitorRwaitAndBuffer)
      → Inv c.wait_with_timeout
      → lookup (visitor_string (set_visitor name road)) c.wait_with_timeout ≡ some v
      → v.basic ≡ set_visitor name road
      → v.buffer ≡ []
      → (input_from_string rec.road ≡ input_from_string road ++ rest)
        ⊎ (input_from_string road ≡ input_from_string rec.road ++ rest)
      → (env.races (visitor_string (set_visitor name road))).late ≡ false
      → is_nil_result (read float_text json (set_visitor name road)) ≡ false
      → wait.expired ≡ false
      → (finish_read float_text wait name road (after_write float_text env rec json c)).1
        ≡ set_result rec.visitor_name (read float_text json (set_visitor name road)) env.write_over
  told_then_read c v i h basic empty near late full expired =
      let key = visitor_string (set_visitor name road) in
      let full' : is_nil_result (read float_text json v.basic) ≡ false =
        ap (λ b. is_nil_result (read float_text json b)) basic ∙ full in
      let contains : whether_contain (output2string (input_from_string rec.road))
            (output2string v.path)
          ≡ true =
        ap
          (λ b. whether_contain (output2string (input_from_string rec.road)) (output2string b.path))
          basic
        ∙ related (input_from_string rec.road) (input_from_string road) rest near in
      let (w, q, b) =
        told_first (env.races key) (read float_text json v.basic) v rec.visitor_name env.write_over
          (some v) late empty full' in
      let there : lookup key (after_write float_text env rec json c).wait_with_timeout ≡ some w =
        lookup-after_write float_text env rec json c key i ∙ rw (h, contains) q in
      ((finish_read_lem float_text wait name road key (after_write float_text env rec json c) w
          there).1
        (set_result rec.visitor_name (read float_text json v.basic) env.write_over) [] expired b
        full').0
      ∙ ap (λ a. set_result rec.visitor_name (read float_text json a) env.write_over) basic

-- A reader with an empty buffer, or none, asks for its listener in a sound table; while it waits the
-- kernel serves a write at its path, above or below it, that left the tree as `json`, and puts the
-- update into the buffer before the timer. If the tree then holds something at the reader's path and the
-- reader's time does not run out first, it gets that, with the writer's name and the time of the write.
pub finish_read-after_write :
    (float_text : ℕ → Bytes) (env : Around) (wait : Wait) (rec : WriteRequest) (json : Value)
    (name road : Bytes) (rest : NodePath) (c : VisitorsControl)
    → Inv c.wait_with_timeout
    → (registered
        (set_visitor name road)
        (lookup (visitor_string (set_visitor name road)) c.wait_with_timeout)).buffer
      ≡ []
    → (input_from_string rec.road ≡ input_from_string road ++ rest)
      ⊎ (input_from_string road ≡ input_from_string rec.road ++ rest)
    → (env.races (visitor_string (set_visitor name road))).late ≡ false
    → is_nil_result (read float_text json (set_visitor name road)) ≡ false
    → wait.expired ≡ false
    → let asked = start_read float_text name road c in
      let told_all = after_write float_text env rec json asked in
      (finish_read float_text wait name road told_all).1
      ≡ set_result rec.visitor_name (read float_text json (set_visitor name road)) env.write_over
unfolding start_read
finish_read-after_write float_text env wait rec json name road rest c i empty near late full
      expired =
    let input = set_visitor name road in
    let key = visitor_string input in
    let v = registered input (lookup key c.wait_with_timeout) in
    told_then_read float_text env wait rec json name road rest (start_read float_text name road c) v
      (apply_for-Inv input c.wait_with_timeout (input_from_string-IsParsed road) i)
      (rw bytes_eq_refl at (apply_for_lem input c.wait_with_timeout key).0)
      (registered-basic input (lookup key c.wait_with_timeout)) empty near late full expired

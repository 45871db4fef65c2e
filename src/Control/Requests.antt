-- ===== src/Control/Requests.antt =====
-- component/visitorsControl.go: what the kernel promises about a request.
use realtime_data_center.Base.{
  ℕ, ◌≡◌, refl, sym, ap, ◌∙◌, ◌≢◌, inl, inr, Bool, true, false, [], ◌++◌, Option, none, some,
  if◌then◌else◌, Bytes, bytes_eq, lookup, filter_dict-Distinct, Distinct, All, All-weaken,
  All-filter_dict, Bool-cases, Option-cases,
}
use realtime_data_center.Base.Int.{ℤ}
use realtime_data_center.Path.{NodePath, input_from_string, output2string, last}
use realtime_data_center.Path.RoundTrip.{IsParsed, input_from_string-IsParsed}
use realtime_data_center.Value.{Value, is_nil, kind}
use realtime_data_center.Visitor.{VisitorW, VisitorBasicType, visitor_string, set_visitor, nil_key}
use realtime_data_center.Json.{Outcome, ok, err, panic, WriteError, find, put, read}
use realtime_data_center.Json.Descent.{Exists}
use realtime_data_center.Json.Store.{Fits}
use realtime_data_center.Json.Contract.{OneNil, write_branches, write-find}
use realtime_data_center.Affect.{LongPollReadControl, whether_contain, affect}
use realtime_data_center.Affect.Registry.{Inv, Entry, lookup-affect, registered, apply_for_lem}
use realtime_data_center.Control.{VisitorsControl, WriteRequest, get_new_write_request, register_ok}
use realtime_data_center.Control.Notify.{affected_read_return}
use realtime_data_center.Control.Delivery.{told, lookup-affected_read_return}
use realtime_data_center.Control.Serve.{
  Around, after_write, answer_write, serve_write, serve_read, try_register, serve_register,
}
use realtime_data_center.Control.Calls.{
  WriteReply, written, reply, write_quickly, read_quickly, register_notify,
}

affected_sound :
    (road : Bytes) (table : LongPollReadControl)
    → Inv table
    → Distinct (affect road table) × All (λ e. IsParsed e.1.path) (affect road table)
unfolding affect
affected_sound road table i = (
  filter_dict-Distinct _ table i.distinct,
  All-filter_dict _ _ table (All-weaken Entry _ table (λ e h. h.2) i.entries),
)

-- After a write that left the tree as `json`, a listener of the sound table before stands in the table
-- after as it did, unless its path's text contains or is contained in the text of the written path:
-- then it stays if the tree reads nothing at its own path, and otherwise it holds what the tree reads
-- there, or is gone if it could not be told in time.
pub lookup-after_write :
    (float_text : ℕ → Bytes) (env : Around) (rec : WriteRequest) (json : Value)
    (c : VisitorsControl) (k : Bytes)
    → Inv c.wait_with_timeout
    → lookup k (after_write float_text env rec json c).wait_with_timeout
      ≡ elim (lookup k c.wait_with_timeout) [
        | none ↦ none
        | some v ↦
            if whether_contain (output2string (input_from_string rec.road)) (output2string v.path)
            then told
                (env.races k)
                (read float_text json v.basic)
                v
                rec.visitor_name
                env.write_over
                (some v)
            else some v
      ]
unfolding after_write
lookup-after_write float_text env rec json c k i =
    let road = output2string (input_from_string rec.road) in
    elim (Option-cases (lookup k c.wait_with_timeout)) [
      | inl e ↦ delivered ∙ rw (lookup-affect road k c.wait_with_timeout i, e) e
      | inr (v, e) ↦ elim (Bool-cases (whether_contain road (output2string v.path))) [
        | inl h ↦ delivered ∙ rw (lookup-affect road k c.wait_with_timeout i, e, h, e)
        | inr h ↦ delivered ∙ rw (lookup-affect road k c.wait_with_timeout i, e, h) e
      ]
    ]
  where
    delivered :
        lookup k
          (affected_read_return float_text env.races json rec.visitor_name env.write_over
            (affect (output2string (input_from_string rec.road)) c.wait_with_timeout)
            c.wait_with_timeout).0
        ≡ elim (lookup k
            (affect (output2string (input_from_string rec.road)) c.wait_with_timeout)) [
              | none ↦ lookup k c.wait_with_timeout
              | some v ↦
                  told
                    (env.races k)
                    (read float_text json v.basic)
                    v
                    rec.visitor_name
                    env.write_over
                    (lookup k c.wait_with_timeout)
            ]
    delivered =
        let road = output2string (input_from_string rec.road) in
        let (d, p) = affected_sound road c.wait_with_timeout i in
        lookup-affected_read_return float_text env.races json rec.visitor_name env.write_over
          (affect road c.wait_with_timeout) c.wait_with_timeout k d p

-- What a write request asks for.
abbrev pub request : WriteRequest → VisitorW
request rec = record { basic = set_visitor rec.visitor_name rec.road; payload = rec.payload }

-- How the kernel serves a write at a path that is not empty. Where the path leads to an entry that the
-- new value fits, the tree gets the new value there and the answer is nil. Where it leads nowhere, the
-- tree stays and the answer is an error, but the listeners are told all the same. Where it leads to a
-- map key at which exactly one of the old and the new value is nil, the program ends by a panic.
pub serve_write_branches :
    (float_text : ℕ → Bytes) (env : Around) (rec : WriteRequest) (c : VisitorsControl)
    → input_from_string rec.road ≢ []
    → let path = input_from_string rec.road in
      (Exists c.json path
        → Fits (last path) (find c.json path) rec.payload
        → serve_write float_text env rec c
          ≡ some (after_write float_text env rec (put path rec.payload c.json) c, none))
      × (¬ Exists c.json path
          → (e : WriteError) × (serve_write float_text env rec c
              ≡ some (after_write float_text env rec c.json c, some e)))
      × (Exists c.json path
          → (last path).whether_array ≡ false
          → OneNil (kind (find c.json path)) (kind rec.payload)
          → serve_write float_text env rec c ≡ none)
unfolding serve_write answer_write
serve_write_branches float_text env rec c ne =
    let (fits, _, nil, missing) =
      write_branches c.json (request rec) (input_from_string-IsParsed rec.road) ne in
    (
      (λ h f. ap (answer_write float_text env rec c) (fits h f)),
      (λ h. let (e, q) = missing h in (e, ap (answer_write float_text env rec c) q)),
      λ h s o. ap (answer_write float_text env rec c) (nil h s o),
    )

after_write-json :
    (float_text : ℕ → Bytes) (env : Around) (rec : WriteRequest) (json : Value)
    (c : VisitorsControl)
    → (after_write float_text env rec json c).json ≡ json
unfolding after_write
after_write-json float_text env rec json c = refl

answered :
    {c c' : VisitorsControl} {r r' : WriteReply}
    → ◌≡◌ {A = Option (VisitorsControl × WriteReply)} (some (c, r)) (some (c', r'))
    → (c ≡ c') × (r ≡ r')
answered h = (cc, cc)

refusal-not_written : (taken : Bool) (e : WriteError) → reply taken (some e) ≢ written
refusal-not_written true e h = cc
refusal-not_written false e h = cc

written-ok :
    (float_text : ℕ → Bytes) (env : Around) (rec : WriteRequest) (c c' : VisitorsControl)
    (o : Outcome Value)
    → ◌≡◌ {A = Option (VisitorsControl × WriteReply)}
        (elim (answer_write float_text env rec c o) [
          | none ↦ none
          | some (c'', e) ↦ some (c'', reply env.taken e)
        ])
        (some (c', written))
    → o ≡ ok c'.json
unfolding answer_write
written-ok float_text env rec c c' (ok json) h =
    ap ok (sym (after_write-json float_text env rec json c) ∙ ap (λ d. d.json) (answered h).0)
written-ok float_text env rec c c' (err e) h =
    absurd (refusal-not_written env.taken e (answered h).1)
written-ok float_text env rec c c' panic h = cc

read_same :
    (float_text : ℕ → Bytes) (v w : Value) (a b : VisitorBasicType)
    → find v a.path ≡ find w b.path
    → read float_text v a ≡ read float_text w b
unfolding read
read_same float_text v w a b h = rw h refl

-- After a write at a path that is not empty, which is answered by success, a read at the written path or
-- anywhere below it, which the kernel accepts and whose answer is taken, gives the text of what the
-- written value holds there.
pub read_quickly-write_quickly :
    (float_text : ℕ → Bytes) (env env' : Around) (writer reader road below : Bytes)
    (payload : Value) (c c' : VisitorsControl) (q : NodePath)
    → env'.taken ≡ true
    → input_from_string road ≢ []
    → input_from_string below ≡ input_from_string road ++ q
    → write_quickly float_text true env writer road payload c ≡ some (c', written)
    → (read_quickly float_text true env' reader below c').1
      ≡ read float_text payload (record { path = q; name = reader })
unfolding write_quickly read_quickly serve_write serve_read
read_quickly-write_quickly float_text env env' writer reader road below payload c c' q t ne e h =
    let rec = get_new_write_request writer road payload in
    let found =
      (write-find c.json c'.json (request rec) (input_from_string-IsParsed road) ne
          (written-ok float_text env rec c c' _ h)).0
        q in
    rw t (
      read_same float_text c'.json payload (set_visitor reader below)
        (record { path = q; name = reader }) (ap (find c'.json) e ∙ found))

-- A registration that the kernel accepts and whose answer the client takes is answered by success exactly when something is found
-- at its path, and then the listener that stands under its key in the table is the one it asks for;
-- otherwise the table stays as it was. In no case does the tree change.
pub register_notify_lem :
    (env : Around) (name road : Bytes) (timeout : ℤ) (c : VisitorsControl) (k : Bytes)
    → env.taken ≡ true
    → let input = set_visitor name road in
      let key = visitor_string input in
      let r = register_notify true env name road timeout c in
      (r.0.json ≡ c.json)
      × (is_nil (find c.json input.path) ≡ true
          → (r.1 ≡ nil_key) × (r.0.wait_with_timeout ≡ c.wait_with_timeout))
      × (is_nil (find c.json input.path) ≡ false
          → (r.1 ≡ register_ok)
            × (lookup k r.0.wait_with_timeout ≡ (
                if bytes_eq key k
                then some (registered input (lookup key c.wait_with_timeout))
                else lookup k c.wait_with_timeout)))
unfolding register_notify serve_register try_register
register_notify_lem env name road timeout c k t =
    let (there, found) = apply_for_lem (set_visitor name road) c.wait_with_timeout k in
    (
      refl,
      (λ h. rw (h, t, try_register) (refl, refl)),
      λ h. rw (h, t, try_register, found) (refl, there),
    )

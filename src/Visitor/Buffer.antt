-- ===== src/Visitor/Buffer.antt =====
-- component/visitor.go: the buffer of a listener.
use realtime_data_center.Base.{
  ℕ, zero, suc, ◌+◌, ◌≤◌, ◌<◌, ◌≡◌, refl, sym, ap, ◌∙◌, true, false, List, [], ◌∷◌, ◌++◌,
  append_assoc, append-nil, none, some, arith, length, length-append, drop, length-drop-le, Bytes,
}
use realtime_data_center.Base.Int.{ℤ, pos, add64}
use realtime_data_center.Visitor.{
  ReadResult, ReadBufferResult, VisitorRwaitAndBuffer, Race, buffer_full, unknown_error, set_result,
  buffer_capacity, offer, insert_update, take_oldest, read_one,
}

-- An update never fills the buffer beyond its capacity.
pub insert_update_bounded :
    (race : Race) (v : VisitorRwaitAndBuffer) (result : ReadResult) (writer : Bytes) (timestamp : ℤ)
    → length v.buffer ≤ buffer_capacity
    → length (insert_update race v result writer timestamp).0.buffer ≤ buffer_capacity
unfolding insert_update offer
insert_update_bounded race v result writer timestamp h = ground (
  arith,
  length-drop-le race.taken v.buffer,
  length-append (drop race.taken v.buffer) (set_result writer result timestamp ∷ []),
)

-- An update counts as a write in any case. It succeeds exactly when the timer is not first and there
-- is room once the reader took what it takes: the result, with its writer and time, is then the newest
-- of the buffer. Otherwise the buffer stays as the reader left it, and the error names a full buffer
-- exactly when it is full.
pub insert_update_lem :
    (race : Race) (v : VisitorRwaitAndBuffer) (result : ReadResult) (writer : Bytes) (timestamp : ℤ)
    → length v.buffer ≤ buffer_capacity
    → let left = drop race.taken v.buffer in
      let r = insert_update race v result writer timestamp in
      (r.0.write_num ≡ add64 v.write_num (pos 1))
      × (r.0.read_num ≡ v.read_num)
      × (r.0.basic ≡ v.basic)
      × (race.late ≡ false
          → length left < buffer_capacity
          → (r.0.buffer ≡ left ++ set_result writer result timestamp ∷ []) × (r.1 ≡ none))
      × (race.late ≡ true
          → length left < buffer_capacity
          → (r.0.buffer ≡ left) × (r.1 ≡ some unknown_error))
      × (length left ≡ buffer_capacity
          → (r.0.buffer ≡ left) × (r.1 ≡ some (buffer_full buffer_capacity)))
unfolding insert_update offer
insert_update_lem race v result writer timestamp h =
    ground (arith, length-drop-le race.taken v.buffer)

-- Updates one after another, with no reader and no delay.
unfoldable pub insert_all : List ReadBufferResult → VisitorRwaitAndBuffer → VisitorRwaitAndBuffer
insert_all [] v = v
insert_all (a ∷ as') v =
    insert_all as'
      (insert_update (record { taken = 0; late = false }) v a.result a.writer a.w_timestamp).0

-- Reads one after another, each before its time runs out: the results, the oldest first.
unfoldable pub read_all : ℕ → VisitorRwaitAndBuffer → List ReadBufferResult
read_all zero v = []
read_all (suc n) v = let (v', a) = read_one false v in a ∷ read_all n v'

insert_update-append :
    (v : VisitorRwaitAndBuffer) (a : ReadBufferResult)
    → length v.buffer < buffer_capacity
    → (insert_update
        (record { taken = 0; late = false })
        v
        a.result
        a.writer
        a.w_timestamp).0.buffer
      ≡ v.buffer ++ a ∷ []
unfolding insert_update offer
insert_update-append v a h = ground arith

insert_all-buffer :
    (xs : List ReadBufferResult) (v : VisitorRwaitAndBuffer)
    → length v.buffer + length xs ≤ buffer_capacity
    → (insert_all xs v).buffer ≡ v.buffer ++ xs
unfolding insert_all
insert_all-buffer [] v h = sym (append-nil v.buffer)
insert_all-buffer (a ∷ xs) v h =
    let grown = insert_update-append v a (omega arith) in
    insert_all-buffer xs _ (omega (arith, ap length grown, length-append v.buffer (a ∷ [])))
    ∙ ap (λ r. r ++ xs) grown
    ∙ append_assoc v.buffer (a ∷ []) xs

read_all-buffer :
    (xs : List ReadBufferResult) (v : VisitorRwaitAndBuffer)
    → v.buffer ≡ xs
    → read_all (length xs) v ≡ xs
unfolding read_all read_one take_oldest
read_all-buffer [] v e = refl
read_all-buffer (a ∷ xs) v e = rw (e, take_oldest) (ap (λ r. a ∷ r) (read_all-buffer xs _ refl))

-- An empty buffer gives back what was put into it, in the order in which it came, as long as it never
-- held more than its capacity.
pub read_all-insert_all :
    (xs : List ReadBufferResult) (v : VisitorRwaitAndBuffer)
    → v.buffer ≡ []
    → length xs ≤ buffer_capacity
    → read_all (length xs) (insert_all xs v) ≡ xs
read_all-insert_all xs v e h =
    read_all-buffer xs _ (insert_all-buffer xs v (omega (arith, ap length e)) ∙ ap (λ r. r ++ xs) e)

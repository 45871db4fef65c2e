-- ===== src/Simulation/Notices.antt =====
-- clientSimulation/main.go: what the callback counts.
use realtime_data_center.Base.{
  ℕ, ◌+◌, ◌≡◌, refl, ap, ◌∙◌, inl, inr, true, false, List, [], ◌∷◌, Option, some, arith,
  if◌then◌else◌, Bytes, bytes_eq, bytes_eq_iff, length, All, lookup, insert, lookup-insert,
  Bool-cases,
}
use realtime_data_center.Golib.Unmarshal.{unmarshal}
use realtime_data_center.Socket.{cmd_notify}
use realtime_data_center.Messages.{
  change_notify_json, set_change_notify_json, return_base, set_return, return_base_string,
}
use realtime_data_center.Link.Duplex.Members.{In}
use realtime_data_center.Simulation.{Counts, Notices, count_notify, count_all}

-- Each of the paths has a counter, which stands as `f` says.
abbrev pub Counted : List Bytes → (Bytes → ℕ) → Counts → Type 0
Counted paths f counts = (p : Bytes) → In p paths → lookup p counts.by_path ≡ some (f p)

pub Counted-ext :
    (paths : List Bytes) (f g : Bytes → ℕ) (counts : Counts)
    → ((p : Bytes) → f p ≡ g p)
    → Counted paths f counts
    → Counted paths g counts
Counted-ext paths f g counts e h p m = h p m ∙ ap some (e p)

pub Counted-zero :
    (paths : List Bytes) (f : Bytes → ℕ) (counts : Counts)
    → Counted paths f counts
    → Counted paths (λ p. 0 + f p) counts
Counted-zero paths f counts =
    Counted-ext paths f (λ p. 0 + f p) counts (λ p. let z : f p ≡ 0 + f p = omega arith in z)

module _ (parse_float : Bytes → Option ℕ) where
  -- The path that a notification is about.
  abbrev pub told_path : ℕ × Bytes → Bytes
  told_path n = (unmarshal (set_change_notify_json parse_float) n.1 change_notify_json).0.path

  -- A notification of a change at one of the paths.
  abbrev pub IsNews : List Bytes → ℕ × Bytes → Type 0
  IsNews paths n =
      (n.0 ≡ cmd_notify)
      × ((unmarshal (set_change_notify_json parse_float) n.1 change_notify_json).1 ≡ false)
      × In (told_path n) paths

  abbrev pub once : Bytes → ℕ × Bytes → ℕ
  once p n = if bytes_eq (told_path n) p then 1 else 0

  -- How many of the notifications are about a path.
  abbrev pub times : Bytes → Notices → ℕ
  times p [] = 0
  times p (n ∷ notices) = once p n + times p notices

  module _ (json_error : Bytes → Bytes) (paths : List Bytes) where
    count_one :
        (f : Bytes → ℕ) (n : ℕ × Bytes) (counts : Counts)
        → Counted paths f counts
        → IsNews paths n
        → (counts' : Counts) × (answer : Bytes) × (count_notify parse_float json_error n.0 n.1
              counts
            ≡ some (counts', answer))
          × Counted paths (λ p. once p n + f p) counts'
          × (counts'.total_read ≡ counts.total_read + 1)
    unfolding count_notify
    count_one f n counts h (c, fine, m) =
        let path = told_path n in
        (
          record {
            by_path = insert path (f path + 1) counts.by_path;
            total_read = counts.total_read + 1;
          },
          return_base_string (set_return true [] return_base),
          rw (c, fine, count_notify, h path m) refl,
          (λ p q. lookup-insert path p (f path + 1) counts.by_path ∙ one_more p q),
          refl,
        )
      where
        one_more :
            (p : Bytes)
            → In p paths
            → (if bytes_eq (told_path n) p
                then some (f (told_path n) + 1)
                else lookup p counts.by_path)
              ≡ some (once p n + f p)
        one_more p q = elim (Bool-cases (bytes_eq (told_path n) p)) [
          | inl e ↦ rw e (
              ap (λ r. some (f r + 1)) ((bytes_eq_iff (told_path n) p).0 e)
              ∙ ap some (let s : f p + 1 ≡ 1 + f p = omega arith in s))
          | inr e ↦ rw e (Counted-zero paths f counts h p q)
        ]

    -- The counters after some notifications, each about one of the paths.
    pub count_all_lem :
        (notices : Notices) (f : Bytes → ℕ) (counts : Counts)
        → Counted paths f counts
        → All (IsNews paths) notices
        → (counts' : Counts) × (count_all parse_float json_error notices counts ≡ some counts')
          × Counted paths (λ p. times p notices + f p) counts'
          × (counts'.total_read ≡ counts.total_read + length notices)
    unfolding count_all
    count_all_lem [] f counts h a = (counts, refl, Counted-zero paths f counts h, omega arith)
    count_all_lem (n ∷ notices) f counts h (a, rest) =
        let (counts1, answer, e, h1, t1) = count_one f n counts h a in
        let (counts2, e2, h2, t2) = count_all_lem notices (λ p. once p n + f p) counts1 h1 rest in
        (
          counts2,
          rw (e, count_all) e2,
          Counted-ext paths _ _ counts2
              (λ p.
                let s : times p notices + (once p n + f p) ≡ once p n + times p notices + f p =
                  shuffle (once p n) (times p notices) (f p) in
                s)
              h2,
          omega (arith, t1, t2),
        )
      where
        shuffle : (a b c : ℕ) → b + (a + c) ≡ a + b + c
        shuffle a b c = omega arith

  -- How many notifications about `p` come with the writes to some paths, and how many in all.
  abbrev pub heard : (Bytes → Notices) → Bytes → List Bytes → ℕ
  heard news p [] = 0
  heard news p (q ∷ paths) = times p (news q) + heard news p paths

  abbrev pub sent : (Bytes → Notices) → List Bytes → ℕ
  sent news [] = 0
  sent news (q ∷ paths) = length (news q) + sent news paths

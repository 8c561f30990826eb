-- ===== src/Poll/Pipes.antt =====
-- Which bytes p1.c reads, and when its loop ends.
use cn_lab.Base.{
  ℕ, zero, suc, ◌+◌, ◌≤◌, ◌≡◌, refl, sym, ap, ◌∙◌, inl, inr, List, [], ◌∷◌, ◌++◌, append_assoc, All,
  true, not, ◌||◌, ◌==◌, if◌then◌else◌, Bool-cases, length, take, drop, arith,
}
use cn_lab.Base.Explore.{&&-fst}
use mathlib.Core.Path.{subst}
use cn_lab.Poll.{
  Pipe, Reader, opened, opened_pipe, pollhup, pollin, read_100, visit, visit_all, round, Event,
  written_to, without_writer, change_at, happen, run,
}

abbrev pub open_count : List Pipe → ℕ
open_count [] = 0
open_count (p ∷ pipes) = (if p.has_fd then 1 else 0) + open_count pipes

-- Nothing is lost, and a pipe with a writer is polled.
pub record IsSound (p : Pipe) : Type 0 where
  pub bytes : p.written ≡ p.got ++ p.content
  pub polled : (not p.has_writer || p.has_fd) ≡ true

take-drop : (n : ℕ) (xs : List ℕ) → take n xs ++ drop n xs ≡ xs
take-drop zero xs = refl
take-drop (suc n) [] = refl
take-drop (suc n) (x ∷ xs) = ap (λ l. x ∷ l) (take-drop n xs)

read_100-IsSound : (p : Pipe) → IsSound p → IsSound (read_100 p)
read_100-IsSound p h = record {
  bytes =
      h.bytes
      ∙ ap (λ l. p.got ++ l) (sym (take-drop 100 p.content))
      ∙ sym (append_assoc p.got (take 100 p.content) (drop 100 p.content));
  polled = h.polled;
}

written_to-IsSound : (bytes : List ℕ) (p : Pipe) → IsSound p → IsSound (written_to bytes p)
written_to-IsSound bytes p h = elim (Bool-cases p.has_writer) [
  | inl here ↦ rw here (record {
    bytes = ap (λ l. l ++ bytes) h.bytes ∙ append_assoc p.got p.content bytes;
    polled = rw here at h.polled;
  })
  | inr gone ↦
      let unchanged : written_to bytes p ≡ p =
        ap
          (λ b.
            if b
            then record p { content = p.content ++ bytes; written = p.written ++ bytes }
            else p)
          gone in
      subst IsSound (sym unchanged) h
]

without_writer-IsSound : (p : Pipe) → IsSound p → IsSound (without_writer p)
without_writer-IsSound p h = record { bytes = h.bytes; polled = refl }

change_at-IsSound :
    (f : Pipe → Pipe)
    → ((p : Pipe) → IsSound p → IsSound (f p))
    → (i : ℕ) (pipes : List Pipe) → All IsSound pipes
    → All IsSound (change_at f i pipes)
change_at-IsSound f hf i [] h = tt
change_at-IsSound f hf zero (p ∷ pipes) (hp, h) = (hf p hp, h)
change_at-IsSound f hf (suc i) (p ∷ pipes) (hp, h) = (hp, change_at-IsSound f hf i pipes h)

take_none : (xs : List ℕ) → (length (take 100 xs) == 0) ≡ true → (length xs == 0) ≡ true
take_none [] h = refl
take_none (x ∷ xs) h = absurd (ground arith)

visit-IsSound : (n : ℕ) (p : Pipe) → IsSound p → IsSound (visit n p).1
unfolding visit
visit-IsSound n p h = elim (Bool-cases (pollhup p)) [
  | inl hup ↦ rw hup (record { bytes = h.bytes; polled = ground arith })
  | inr open_end ↦ elim (Bool-cases (pollin p)) [
    | inl ready ↦ elim (Bool-cases (length (take 100 p.content) == 0)) [
      | inl empty ↦ absurd (ground (arith, take_none p.content empty))
      | inr some_bytes ↦ rw (open_end, ready, some_bytes) (read_100-IsSound p h)
    ]
    | inr idle ↦ rw (open_end, idle) h
  ]
]

abbrev pub open_one : Pipe → ℕ
open_one p = if p.has_fd then 1 else 0

visit_count :
    (n : ℕ) (p : Pipe) → open_one p ≤ n → (visit n p).0 + open_one p ≡ n + open_one (visit n p).1
unfolding visit
visit_count n p le = elim (Bool-cases (pollhup p)) [
  | inl hup ↦
      let fd : p.has_fd ≡ true = &&-fst p.has_fd (not p.has_writer) hup in
      let one : open_one p ≡ 1 = ap (λ b. if b then 1 else 0) fd in rw hup (omega (arith, one))
  | inr open_end ↦ elim (Bool-cases (pollin p)) [
    | inl ready ↦ elim (Bool-cases (length (take 100 p.content) == 0)) [
      | inl empty ↦
          let fd : p.has_fd ≡ true = &&-fst p.has_fd (not (length p.content == 0)) ready in
          let one : open_one p ≡ 1 = ap (λ b. if b then 1 else 0) fd in
          rw (open_end, ready, empty) (omega (arith, one))
      | inr some_bytes ↦ rw (open_end, ready, some_bytes) refl
    ]
    | inr idle ↦ rw (open_end, idle) refl
  ]
]

pub visit_all_lem :
    (n : ℕ) (pipes : List Pipe)
    → open_count pipes ≤ n
    → All IsSound pipes
    → ((visit_all n pipes).0 + open_count pipes ≡ n + open_count (visit_all n pipes).1)
      × All IsSound (visit_all n pipes).1
unfolding visit_all
visit_all_lem n [] le h = (refl, tt)
visit_all_lem n (p ∷ pipes) le (hp, h) =
    let one = visit_count n p (omega (arith, le)) in
    let (rest, sound) = visit_all_lem (visit n p).0 pipes (omega (arith, one, le)) h in
    (omega (arith, one, rest), (visit-IsSound n p hp, sound))

pub record Invariant (s : Reader) : Type 0 where
  pub count : s.nopenfds ≡ open_count s.pipes
  pub sound : All IsSound s.pipes

change_count :
    (f : Pipe → Pipe)
    → ((p : Pipe) → (f p).has_fd ≡ p.has_fd)
    → (i : ℕ) (pipes : List Pipe) → open_count (change_at f i pipes) ≡ open_count pipes
change_count f hf i [] = refl
change_count f hf zero (p ∷ pipes) = ap (λ b. (if b then 1 else 0) + open_count pipes) (hf p)
change_count f hf (suc i) (p ∷ pipes) = ap (λ k. open_one p + k) (change_count f hf i pipes)

round-Invariant : (s : Reader) → Invariant s → Invariant (round s)
unfolding round
round-Invariant s h = elim (Bool-cases (s.nopenfds == 0)) [
  | inl over ↦ rw over h
  | inr going ↦
      let (count, sound) = visit_all_lem s.nopenfds s.pipes (omega (arith, h.count)) h.sound in
      rw going (record { count = omega (arith, count, h.count); sound = sound })
]

happen-Invariant : (e : Event) (s : Reader) → Invariant s → Invariant (happen e s)
unfolding happen
happen-Invariant (Event.write i bytes) s h = record {
  count = h.count ∙ sym (change_count (written_to bytes) (λ p. ground arith) i s.pipes);
  sound = change_at-IsSound (written_to bytes) (written_to-IsSound bytes) i s.pipes h.sound;
}
happen-Invariant (Event.close i) s h = record {
  count = h.count ∙ sym (change_count without_writer (λ p. refl) i s.pipes);
  sound = change_at-IsSound without_writer without_writer-IsSound i s.pipes h.sound;
}
happen-Invariant Event.poll s h = round-Invariant s h

run_from : (events : List Event) (s : Reader) → Invariant s → Invariant (run events s)
unfolding run
run_from [] s h = h
run_from (e ∷ events) s h = run_from events (happen e s) (happen-Invariant e s h)

opened-Invariant : Invariant opened
unfolding opened
opened-Invariant = record {
  count = refl;
  sound =
      let new : IsSound opened_pipe = record { bytes = refl; polled = refl } in
      (new, (new, (new, tt)));
}

-- Whatever the writers do between the rounds: nopenfds is the number of pipes that are still polled,
-- every pipe with a writer is one of them, and what has been read from a pipe, followed by what is
-- in it, is what has been written to it.
pub run-Invariant : (events : List Event) → Invariant (run events opened)
run-Invariant events = run_from events opened opened-Invariant

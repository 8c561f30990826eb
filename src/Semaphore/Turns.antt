-- ===== src/Semaphore/Turns.antt =====
-- What every run of the two processes does.
use cn_lab.Base.{
  ℕ, zero, suc, ◌+◌, ◌-◌, ◌*◌, ◌/◌, ◌≤◌, ◌≡◌, refl, sym, ap, ◌∙◌, ◌⊎◌, inl, inr, List, [], ◌∷◌,
  Bool, true, false, not, ◌&&◌, ◌||◌, ◌==◌, ==_iff, ltb, leb, leb→le, length, arith,
}
use cn_lab.Base.Packet.{same_text, eq_of_same_text}
use cn_lab.Base.Explore.{
  Run, every, every_in, run-every, every_in, run-measure, &&-fst, &&-snd, ||-cases, same_texts,
}
use cn_lab.Semaphore.{
  State, Place1, Place2, start, moves, move1, move2, semop_zero, semop_decrement,
}
use cn_lab.Semaphore.States.{
  key, decode, decode-key, states, start-states, states-closed, place1_number, place2_number,
  place1, place2, place1-number, place2-number,
}

module _ (p : State → Bool) (h : every_in p states ≡ true) where
  always : {n : ℕ} {s : State} → Run moves start n s → p s ≡ true
  always r = run-every moves key decode decode-key p states start-states states-closed h r

-- "ABAB...", n letters of it.
abbrev pub letters_from : ℕ → ℕ → List ℕ
letters_from a zero = []
letters_from a (suc n) = a ∷ letters_from (131 - a) n

abbrev pub letters : ℕ → List ℕ
letters = letters_from 65

abbrev pub is_writing_x : Place1 → Bool
is_writing_x p = elim p [ Place1.strcpy_x ↦ true | Place1.strcat_x ↦ true | _ ↦ false ]

abbrev pub is_reading_x : Place2 → Bool
is_reading_x p = elim p [ Place2.read_x ↦ true | _ ↦ false ]

abbrev pub is_writing_y : Place2 → Bool
is_writing_y p = elim p [ Place2.strcpy_y ↦ true | Place2.strcat_y ↦ true | _ ↦ false ]

abbrev pub is_reading_y : Place1 → Bool
is_reading_y p = elim p [ Place1.read_y ↦ true | _ ↦ false ]

abbrev takes_turns : State → Bool
takes_turns s =
    not (is_writing_x s.place1 && is_reading_x s.place2)
    && not (is_writing_y s.place2 && is_reading_y s.place1)

takes_turns-states : every_in takes_turns states ≡ true
unfolding moves move1 move2 same_text semop_zero semop_decrement same_texts
takes_turns-states = refl

not-true : (b : Bool) → not b ≡ true → b ≡ false
not-true true h = cc
not-true false h = refl

-- In every interleaving, p1.c is never between strcpy and strcat on x while p2.c is about to read x,
-- and p2.c is never between strcpy and strcat on y while p1.c is about to read y.
pub run_turns :
    {n : ℕ} {s : State}
    → Run moves start n s
    → ((is_writing_x s.place1 && is_reading_x s.place2) ≡ false)
      × ((is_writing_y s.place2 && is_reading_y s.place1) ≡ false)
run_turns r =
    let h = always takes_turns takes_turns-states r in
    (not-true _ (&&-fst _ _ h), not-true _ (&&-snd _ _ h))

abbrev has_letters : State → Bool
has_letters s =
    (same_text s.x (letters (length s.x)) && same_text s.y (letters (length s.y)))
    && (leb (length s.x) 7 && leb (length s.y) 8)

has_letters-states : every_in has_letters states ≡ true
unfolding moves move1 move2 same_text semop_zero semop_decrement same_texts
has_letters-states = refl

-- In every interleaving, x and y hold "ABAB..." at all times, x at most 7 letters and y at most 8.
pub run_letters :
    {n : ℕ} {s : State}
    → Run moves start n s
    → (s.x ≡ letters (length s.x))
      × (s.y ≡ letters (length s.y))
      × (length s.x ≤ 7)
      × (length s.y ≤ 8)
run_letters {s} r =
    let h = always has_letters has_letters-states r in
    let texts = &&-fst _ _ h in
    let sizes = &&-snd _ _ h in
    (
      eq_of_same_text _ _ (&&-fst _ _ texts),
      eq_of_same_text _ _ (&&-snd _ _ texts),
      leb→le _ _ (&&-fst _ _ sizes),
      leb→le _ _ (&&-snd _ _ sizes),
    )

abbrev measure : State → ℕ
measure s =
    length s.local1 / 2 * 7
    + place1_number s.place1
    + (length s.local2 + 1) / 2 * 7
    + place2_number s.place2

measure_grows : every_in (λ s. every (λ t. ltb (measure s) (measure t)) (moves s)) states ≡ true
unfolding moves move1 move2 same_text semop_zero semop_decrement same_texts
measure_grows = refl

measure_bounded : every_in (λ s. leb (measure s) 74) states ≡ true
unfolding moves move1 move2 same_text semop_zero semop_decrement same_texts
measure_bounded = refl

-- No interleaving of the two processes has more than 69 moves.
pub run_bound : {n : ℕ} {s : State} → Run moves start n s → n ≤ 69
run_bound {s} r =
    let grown =
      run-measure moves key decode decode-key measure states start-states states-closed
        measure_grows r in
    let bounded = leb→le (measure s) 74 (always (λ u. leb (measure u) 74) measure_bounded r) in
    omega (arith, grown, bounded)

abbrev is_empty : List State → Bool
is_empty [] = true
is_empty (s ∷ r) = false

abbrev is_over : State → Bool
is_over s = place2_number s.place2 == 9 && same_text s.x (letters 7)

abbrev is_regular : State → Bool
is_regular s = place1_number s.place1 == 9 && same_text s.y (letters 8)

abbrev is_short : State → Bool
is_short s = same_text s.y (letters 6) || same_text s.y (letters 8)

abbrev is_failure : State → Bool
is_failure s = place1_number s.place1 == 7 && is_short s

abbrev is_end : State → Bool
is_end s = is_over s && (is_regular s || is_failure s)

abbrev ends_right : State → Bool
ends_right s = not (is_empty (moves s)) || is_end s

ends_right-states : every_in ends_right states ≡ true
unfolding moves move1 move2 same_text semop_zero semop_decrement same_texts
ends_right-states = refl

not-or : (a b : Bool) → a ≡ true → (not a || b) ≡ true → b ≡ true
not-or true b e h = h
not-or false b e h = cc

place1_at : (p : Place1) (k : ℕ) → (place1_number p == k) ≡ true → p ≡ place1 k
place1_at p k h = sym (place1-number p) ∙ ap place1 ((==_iff (place1_number p) k).0 h)

place2_at : (p : Place2) (k : ℕ) → (place2_number p == k) ≡ true → p ≡ place2 k
place2_at p k h = sym (place2-number p) ∙ ap place2 ((==_iff (place2_number p) k).0 h)

short_y : (s : State) → is_short s ≡ true → (s.y ≡ letters 6) ⊎ (s.y ≡ letters 8)
short_y s h = elim (||-cases (same_text s.y (letters 6)) (same_text s.y (letters 8)) h) [
  | inl e ↦ inl (eq_of_same_text s.y (letters 6) e)
  | inr e ↦ inr (eq_of_same_text s.y (letters 8) e)
]

-- A run in which no process can move any more has ended, so no interleaving deadlocks: p2.c has
-- left its loop and exited and x is "ABABABA". Either p1.c has exited too and y is "ABABABAB", or
-- p1.c has ended with a failed call on the semaphores that p2.c removed, and y is "ABABAB" or
-- "ABABABAB".
pub run_end :
    {n : ℕ} {s : State}
    → Run moves start n s
    → moves s ≡ []
    → (s.place2 ≡ Place2.exited)
      × (s.x ≡ letters 7)
      × (((s.place1 ≡ Place1.exited) × (s.y ≡ letters 8))
          ⊎ ((s.place1 ≡ Place1.failed) × ((s.y ≡ letters 6) ⊎ (s.y ≡ letters 8))))
run_end {s} r stuck =
    let h : (not (is_empty (moves s)) || is_end s) ≡ true = always ends_right ends_right-states r in
    let ended : is_end s ≡ true = not-or (is_empty (moves s)) (is_end s) (ap is_empty stuck) h in
    let common : is_over s ≡ true = &&-fst (is_over s) (is_regular s || is_failure s) ended in
    (
      place2_at s.place2 9 (&&-fst _ _ common),
      eq_of_same_text _ _ (&&-snd _ _ common),
      elim (||-cases (is_regular s) (is_failure s)
          (&&-snd (is_over s) (is_regular s || is_failure s) ended)) [
            | inl both ↦
                inl (place1_at s.place1 9 (&&-fst _ _ both), eq_of_same_text _ _ (&&-snd _ _ both))
            | inr one ↦ inr (place1_at s.place1 7 (&&-fst _ _ one), short_y s (&&-snd _ _ one))
          ],
    )

-- ===== src/Counters/Ends.antt =====
-- How every run of the two processes of 12-1-22/q4 ends.
use cn_lab.Base.{
  ℕ, ◌+◌, ◌*◌, ◌/◌, ◌≤◌, ◌≡◌, refl, sym, ap, ◌∙◌, ◌⊎◌, List, [], ◌∷◌, Bool, true, false, not, ◌&&◌,
  ◌||◌, ◌==◌, ==_iff, if◌then◌else◌, ltb, leb, leb→le, arith,
}
use cn_lab.Base.Packet.{same_text}
use cn_lab.Base.Explore.{Run, every, every_in, run-every, run-measure, &&-fst, &&-snd, same_texts}
use cn_lab.Counters.{State, Place1, Place2, start, moves, move1, move2}
use cn_lab.Counters.States.{
  key, decode, decode-key, states, start-states, states-closed, place1_number, place2_number,
  place1, place2, place1-number, place2-number,
}

module _ (p : State → Bool) (h : every_in p states ≡ true) where
  always : {n : ℕ} {s : State} → Run moves start n s → p s ≡ true
  always r = run-every moves key decode decode-key p states start-states states-closed h r

-- A number that grows with every move.
abbrev turns : ℕ → ℕ
turns n = n / 2 + (if n == 0 then 0 else 1)

abbrev measure : State → ℕ
measure s = turns s.read1 * 5 + place1_number s.place1 + turns s.read2 * 5 + place2_number s.place2

measure_grows : every_in (λ s. every (λ t. ltb (measure s) (measure t)) (moves s)) states ≡ true
unfolding moves move1 move2 same_text same_texts
measure_grows = refl

measure_bounded : every_in (λ s. leb (measure s) 49) states ≡ true
unfolding moves move1 move2 same_text same_texts
measure_bounded = refl

-- No interleaving has more than 49 moves.
pub run_bound : {n : ℕ} {s : State} → Run moves start n s → n ≤ 49
run_bound {s} r =
    let grown =
      run-measure moves key decode decode-key measure states start-states states-closed
        measure_grows r in
    let bounded = leb→le (measure s) 49 (always (λ u. leb (measure u) 49) measure_bounded r) in
    omega (arith, grown, bounded)

abbrev is_empty : List State → Bool
is_empty [] = true
is_empty (s ∷ r) = false

abbrev have_ended : State → Bool
have_ended s = (place1_number s.place1 == 7) && (place2_number s.place2 == 7)

-- x is at the limit or one above it, and y is one below x or one above it.
abbrev is_end : State → Bool
is_end s = have_ended s && ((s.x == 5 || s.x == 6) && (s.y + 1 == s.x || s.y == s.x + 1))

abbrev ends_right : State → Bool
ends_right s = not (is_empty (moves s)) || is_end s

ends_right-states : every_in ends_right states ≡ true
unfolding moves move1 move2 same_text same_texts
ends_right-states = refl

not-or : (a b : Bool) → a ≡ true → (not a || b) ≡ true → b ≡ true
not-or true b e h = h
not-or false b e h = cc

place1_at : (p : Place1) (k : ℕ) → (place1_number p == k) ≡ true → p ≡ place1 k
place1_at p k h = sym (place1-number p) ∙ ap place1 ((==_iff (place1_number p) k).0 h)

place2_at : (p : Place2) (k : ℕ) → (place2_number p == k) ≡ true → p ≡ place2 k
place2_at p k h = sym (place2-number p) ∙ ap place2 ((==_iff (place2_number p) k).0 h)

values :
    (x y : ℕ)
    → ((x == 5 || x == 6) && (y + 1 == x || y == x + 1)) ≡ true
    → ((x ≡ 5) ⊎ (x ≡ 6)) × ((y + 1 ≡ x) ⊎ (y ≡ x + 1))
values x y h = ground arith

-- A run of the two processes in which nothing can move any more has at most 49 moves, and both
-- have left their loops, whichever starts first and however they are interleaved: no run deadlocks.
-- At the end x is 5 or 6, and y is one less or one more than x.
pub counters_end :
    {n : ℕ} {s : State}
    → Run moves start n s
    → moves s ≡ []
    → (n ≤ 49)
      × (s.place1 ≡ Place1.ended)
      × (s.place2 ≡ Place2.ended)
      × ((s.x ≡ 5) ⊎ (s.x ≡ 6))
      × ((s.y + 1 ≡ s.x) ⊎ (s.y ≡ s.x + 1))
counters_end {s} r stuck =
    let h : (not (is_empty (moves s)) || is_end s) ≡ true = always ends_right ends_right-states r in
    let ended : is_end s ≡ true = not-or (is_empty (moves s)) (is_end s) (ap is_empty stuck) h in
    let both : have_ended s ≡ true = &&-fst (have_ended s) _ ended in
    let (vx, vy) = values s.x s.y (&&-snd (have_ended s) _ ended) in
    (
      run_bound r,
      place1_at s.place1 7 (&&-fst _ _ both),
      place2_at s.place2 7 (&&-snd _ _ both),
      vx,
      vy,
    )

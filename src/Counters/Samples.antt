-- ===== src/Counters/Samples.antt =====
-- The theorem on the two processes of 12-1-22/q4 at the run in which p2.c starts late.
use cn_lab.Base.{ℕ, ◌+◌, ◌≤◌, ◌≡◌, ◌⊎◌, refl, [], replicate}
use cn_lab.Base.Explore.{Run, run-play}
use cn_lab.Counters.{State, Place1, Place2, start, moves, move1, move2}
use cn_lab.Counters.Ends.{counters_end}

-- p1.c moves whenever it can; p2.c sets x back to 1 when p1.c already waits.
abbrev late : State
late = record {
  x = 5;
  y = 4;
  s1 = 1;
  s2 = 0;
  place1 = Place1.ended;
  read1 = 4;
  place2 = Place2.ended;
  read2 = 3;
}

late_run : (n : ℕ) × Run moves start n late
unfolding moves move1 move2
late_run = run-play moves {t = late} (replicate 29 0) Run.here refl

late_stuck : moves late ≡ []
unfolding moves move1 move2
late_stuck = refl

counters_end_example :
    (late_run.0 ≤ 49)
    × (Place1.ended ≡ Place1.ended)
    × (Place2.ended ≡ Place2.ended)
    × ((late.x ≡ 5) ⊎ (late.x ≡ 6))
    × ((late.y + 1 ≡ late.x) ⊎ (late.y ≡ late.x + 1))
counters_end_example = counters_end late_run.1 late_stuck

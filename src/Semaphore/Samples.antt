-- ===== src/Semaphore/Samples.antt =====
-- The theorems on the two processes at concrete runs, and tests.
use cn_lab.Base.{ℕ, ◌≡◌, ◌⊎◌, refl, List, [], ◌∷◌, replicate, false, true, ◌&&◌}
use cn_lab.Base.Explore.{Run, run-play}
use cn_lab.Semaphore.{
  State, Place1, Place2, start, moves, move1, move2, semop_zero, semop_decrement,
}
use cn_lab.Semaphore.Turns.{
  run_turns, run_end, letters, is_writing_x, is_reading_x, is_writing_y, is_reading_y,
}

-- p1.c moves whenever it can, until it waits.
abbrev early : State
early = record {
  x = 65 ∷ [];
  y = [];
  s1 = 0;
  s2 = 1;
  is_removed = false;
  place1 = Place1.wait_s2;
  local1 = [];
  place2 = Place2.read_x;
  local2 = [];
}

early_run : (n : ℕ) × Run moves start n early
unfolding moves move1 move2 semop_zero semop_decrement
early_run = run-play moves {t = early} (replicate 6 0) Run.here refl

-- p2.c moves whenever it can, and removes the semaphores while p1.c still waits.
abbrev p2_first : List ℕ
p2_first =
    1 ∷ 0 ∷ 0 ∷ 0 ∷ 0 ∷ 0 ∷ 0 ∷ 0 ∷ 0 ∷ 0 ∷ 0 ∷ 1 ∷ 0 ∷ 0 ∷ 0 ∷ 0 ∷ 0 ∷ 0 ∷ 0 ∷ 0 ∷ 0 ∷ 0 ∷ 0 ∷ 0
    ∷ 0 ∷ 1 ∷ 0 ∷ 0 ∷ 0 ∷ 0 ∷ 0 ∷ 0 ∷ 0 ∷ 0 ∷ 0 ∷ 0 ∷ 0 ∷ 0 ∷ 0 ∷ 1 ∷ 0 ∷ 0 ∷ 0 ∷ 0 ∷ 0 ∷ 0 ∷ 0 ∷ 0
    ∷ 0 ∷ 0 ∷ 0 ∷ 0 ∷ 0 ∷ 1 ∷ 1 ∷ 0 ∷ []

abbrev finished : State
finished = record {
  x = letters 7;
  y = letters 8;
  s1 = 1;
  s2 = 0;
  is_removed = true;
  place1 = Place1.failed;
  local1 = letters 6;
  place2 = Place2.exited;
  local2 = letters 7;
}

finished_run : (n : ℕ) × Run moves start n finished
unfolding moves move1 move2 semop_zero semop_decrement
finished_run = run-play moves {t = finished} p2_first Run.here refl

run_turns_example :
    ((is_writing_x Place1.wait_s2 && is_reading_x Place2.read_x) ≡ false)
    × ((is_writing_y Place2.read_x && is_reading_y Place1.wait_s2) ≡ false)
run_turns_example = run_turns early_run.1

finished_stuck : moves finished ≡ []
unfolding moves move1 move2
finished_stuck = refl

run_end_example :
    (Place2.exited ≡ Place2.exited)
    × (letters 7 ≡ letters 7)
    × (((Place1.failed ≡ Place1.exited) × (letters 8 ≡ letters 8))
        ⊎ ((Place1.failed ≡ Place1.failed) × ((letters 8 ≡ letters 6) ⊎ (letters 8 ≡ letters 8))))
run_end_example = run_end finished_run.1 finished_stuck

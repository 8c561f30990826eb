-- ===== src/Ring/Samples.antt =====
-- The theorems on the ring at concrete runs.
use cn_lab.Base.{ℕ, ◌+◌, ◌≤◌, ◌≡◌, ◌⊎◌, refl, [], ◌∷◌, ◌++◌, replicate, true, false}
use cn_lab.Base.Explore.{Run, run-play}
use cn_lab.Ring.{Ring, started, times, main1, main2, main3, main4}
use cn_lab.Ring.Signals.{
  moves, set_pending, is_pending, kill, sigusr1_handler, sigusr2_handler, wake, is_about_to_pause,
  deliver, msgrcv, perform, proceed,
}
use cn_lab.Ring.Rounds.{IsComplete, patient_end, run_signals, ring_bound}

abbrev finished : Ring
finished = record {
  p1 = record {
    place = 17;
    usr1_count = 4;
    usr2_count = 0;
    pending1 = 0;
    pending2 = 0;
    prev = 4;
    next = 2;
    is_asleep = false;
    is_alive = false;
  };
  p2 = record {
    place = 6;
    usr1_count = 4;
    usr2_count = 4;
    pending1 = 0;
    pending2 = 0;
    prev = 1;
    next = 3;
    is_asleep = false;
    is_alive = false;
  };
  p3 = record {
    place = 5;
    usr1_count = 4;
    usr2_count = 4;
    pending1 = 0;
    pending2 = 0;
    prev = 2;
    next = 4;
    is_asleep = false;
    is_alive = false;
  };
  p4 = record {
    place = 5;
    usr1_count = 4;
    usr2_count = 4;
    pending1 = 0;
    pending2 = 0;
    prev = 3;
    next = 1;
    is_asleep = false;
    is_alive = false;
  };
  queue = [];
  is_merged = false;
  is_stray = false;
}

finished_run : (n : ℕ) × Run (moves true) started n finished
unfolding moves set_pending is_pending kill sigusr1_handler sigusr2_handler wake is_about_to_pause
    deliver msgrcv perform proceed times main1 main2 main3 main4
finished_run =
    run-play (moves true) {start = started} {s = started} {t = finished} {n = 0} (replicate 69 0)
      Run.here refl

finished_stuck : (moves true finished ≡ [])
unfolding moves set_pending is_pending kill sigusr1_handler sigusr2_handler wake is_about_to_pause
    deliver msgrcv perform proceed times main1 main2 main3 main4
finished_stuck = refl

patient_end_example : IsComplete finished
patient_end_example = patient_end finished_run.1 finished_stuck

-- The signal of p1.c arrives after p2.c has seen that p1pid is -1 and before its pause().
abbrev hung : Ring
hung = record {
  p1 = record {
    place = 3;
    usr1_count = 0;
    usr2_count = 0;
    pending1 = 0;
    pending2 = 0;
    prev = 0;
    next = 2;
    is_asleep = true;
    is_alive = true;
  };
  p2 = record {
    place = 2;
    usr1_count = 1;
    usr2_count = 0;
    pending1 = 0;
    pending2 = 0;
    prev = 1;
    next = 0;
    is_asleep = true;
    is_alive = true;
  };
  p3 = record {
    place = 2;
    usr1_count = 0;
    usr2_count = 0;
    pending1 = 0;
    pending2 = 0;
    prev = 0;
    next = 0;
    is_asleep = true;
    is_alive = true;
  };
  p4 = record {
    place = 2;
    usr1_count = 0;
    usr2_count = 0;
    pending1 = 0;
    pending2 = 0;
    prev = 0;
    next = 0;
    is_asleep = true;
    is_alive = true;
  };
  queue = (3, 3) ∷ (4, 4) ∷ [];
  is_merged = false;
  is_stray = false;
}

hung_run : (n : ℕ) × Run (moves false) started n hung
unfolding moves set_pending is_pending kill sigusr1_handler sigusr2_handler wake is_about_to_pause
    deliver msgrcv perform proceed times main1 main2 main3 main4
hung_run =
    run-play (moves false) {start = started} {s = started} {t = hung} {n = 0}
      (replicate 6 0 ++ 1 ∷ replicate 7 0) Run.here refl

hung_stuck : moves false hung ≡ []
unfolding moves set_pending is_pending kill sigusr1_handler sigusr2_handler wake is_about_to_pause
    deliver msgrcv perform proceed times main1 main2 main3 main4
hung_stuck = refl

run_signals_example :
    (hung.is_merged ≡ false)
    × (hung.is_stray ≡ false)
    × ((hung.p1.usr1_count ≤ hung.p4.usr1_count)
        × (hung.p4.usr1_count ≤ hung.p3.usr1_count)
        × (hung.p3.usr1_count ≤ hung.p2.usr1_count)
        × (hung.p2.usr1_count ≤ hung.p1.usr1_count + 1))
    × ((hung.p4.usr2_count ≡ 0) ⊎ (hung.p1.usr1_count ≡ 4))
run_signals_example = run_signals hung_run.1

ring_bound_example : finished_run.0 ≤ 182
ring_bound_example = ring_bound true finished_run.1

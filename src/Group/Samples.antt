-- ===== src/Group/Samples.antt =====
-- The theorems on the group at a concrete run, and tests.
use cn_lab.Base.{ℕ, ◌≡◌, refl, [], ◌∷◌, replicate, true, false}
use cn_lab.Base.Explore.{Run, run-play}
use cn_lab.Ring.Signals.{msgrcv}
use cn_lab.Group.{running, asleep, World, started, main1, main2, main3, main4}
use cn_lab.Group.Moves.{
  forming, moves, load, store, kill1, kill2, set_pgid, msgsnd, perform, proceed, interrupt,
  is_deliverable, sigusr1_handler, deliver1, deliver2,
}
use cn_lab.Group.Runs.{ids, members, all_alive, patient_alone}

abbrev complete : World
complete = record {
  p1 = record {
    place = 12;
    status = running;
    next_id = 2;
    prev_id = 4;
    third_id = 3;
    group_id = 1;
    pending1 = 0;
    pending2 = 0;
    in_group = true;
  };
  p2 = record {
    place = 7;
    status = asleep;
    next_id = 3;
    prev_id = 1;
    third_id = 0;
    group_id = 0;
    pending1 = 0;
    pending2 = 0;
    in_group = false;
  };
  p3 = record {
    place = 6;
    status = asleep;
    next_id = 4;
    prev_id = 2;
    third_id = 0;
    group_id = 0;
    pending1 = 0;
    pending2 = 0;
    in_group = false;
  };
  p4 = record {
    place = 6;
    status = running;
    next_id = 1;
    prev_id = 3;
    third_id = 0;
    group_id = 0;
    pending1 = 0;
    pending2 = 0;
    in_group = false;
  };
  queue = [];
  is_removed = false;
}

complete_run : (n : ℕ) × Run (forming false) started n complete
unfolding forming moves load store kill1 kill2 set_pgid msgsnd perform proceed interrupt
    is_deliverable sigusr1_handler deliver1 deliver2 msgrcv main1 main2 main3 main4
complete_run =
    run-play (forming false) {start = started} {s = started} {t = complete} {n = 0} (replicate 44 0)
      Run.here refl

complete_patient_run : (n : ℕ) × Run (forming true) started n complete
unfolding forming moves load store kill1 kill2 set_pgid msgsnd perform proceed interrupt
    is_deliverable sigusr1_handler deliver1 deliver2 msgrcv main1 main2 main3 main4
complete_patient_run =
    run-play (forming true) {start = started} {s = started} {t = complete} {n = 0} (replicate 44 0)
      Run.here refl

complete_stuck : forming true complete ≡ []
unfolding forming
complete_stuck = refl

patient_alone_example :
    (complete.p1.place ≡ 12)
    × (ids complete ≡ 2 ∷ 3 ∷ 4 ∷ [])
    × (members complete ≡ true ∷ false ∷ false ∷ false ∷ [])
    × (all_alive complete ≡ true)
patient_alone_example = patient_alone {w = complete} complete_patient_run.1 complete_stuck

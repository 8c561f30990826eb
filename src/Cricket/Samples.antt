-- ===== src/Cricket/Samples.antt =====
-- The theorems on the match at concrete deliveries, and tests.
use cn_lab.Base.{
  ℕ, ◌+◌, ◌≤◌, ◌<◌, ◌≡◌, refl, some, List, [], ◌∷◌, arith, sum, replicate, if◌then◌else◌,
}
use cn_lab.Cricket.{
  num_fielders, find_closest_fielder, Umpire, Wait, hit, timeout, failed, new_umpire,
}
use cn_lab.Cricket.Fielding.{distance_to, find_closest_fielder-nearest}
use cn_lab.Cricket.Scoring.{IsScored, is_out, runs_of, play, outs, total_runs, play-innings}
use cn_lab.Cricket.Ball.{new_file, IsRead}
use cn_lab.Cricket.Match.{Delivery, Match, deliver, wait_of, deliver_lem}

find_closest_fielder-nearest_example :
    (c : ℕ) × (find_closest_fielder 15 ≡ some c)
    × (c < num_fielders)
    × ((j : ℕ) → j < num_fielders → distance_to c 15 ≤ distance_to j 15)
    × ((j : ℕ) → j < c → distance_to c 15 < distance_to j 15)
find_closest_fielder-nearest_example = find_closest_fielder-nearest 15

abbrev rounds : List (Wait × ℕ)
rounds = (hit, 12) ∷ (hit, 8) ∷ (timeout, 0) ∷ (hit, 0) ∷ (hit, 7) ∷ (failed, 3) ∷ []

rounds_total : total_runs rounds ≡ 16
rounds_total = refl

play-innings_example :
    (v : Umpire) × (play rounds new_umpire ≡ some v)
    × (v.current_batsman ≡ outs rounds)
    × (v.total_score ≡ total_runs rounds)
    × (v.total_score ≡ sum v.batsman_score)
play-innings_example = play-innings rounds (omega arith)

abbrev all_out : Umpire
all_out = record { batsman_score = replicate 20 0; current_batsman = 20; total_score = 0 }

abbrev delivery : Delivery
delivery = record {
  speed = 3;
  spin = 4;
  score = 40;
  header = 0x45 ∷ replicate 19 0;
  junk = 1 ∷ [];
  held = (0, 0);
}

abbrev fresh : Match
fresh = record { ball = new_file; umpire = new_umpire }

deliver_lem_example :
    (m : Match) × (deliver delivery fresh ≡ some m)
    × (m.ball.cells ≡ 3 ∷ 4 ∷ [])
    × IsRead m.ball
    × (m.umpire.current_batsman ≡ 0 + (if is_out (wait_of delivery) 40 then 1 else 0))
    × (m.umpire.total_score ≡ 0 + runs_of (wait_of delivery) 40)
    × IsScored m.umpire
deliver_lem_example =
    deliver_lem delivery fresh (omega arith, refl) refl (record { totalled = refl; twenty = refl })
      (omega arith)

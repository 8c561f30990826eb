-- ===== src/Cricket.antt =====
-- The cricket match of 15-3-22_RAW/cricket: bowl.c passes a file, the ball, to bat.c; bat.c tells
-- umpire.c of a hit by a signal and a raw packet, which the fielders of fielder.c read as well; the
-- ball comes back through the umpire.
pub mod Fielding
pub mod Scoring
pub mod Ball
pub mod Match
mod Samples
use cn_lab.Base.{
  ℕ, ◌+◌, ◌-◌, ◌%◌, Option, none, some, List, [], ◌∷◌, Bool, not, ◌&&◌, ◌||◌, ltb, ◌==◌,
  if◌then◌else◌, get_or, get_elem?, set, replicate, false,
}

-- fielder.c

abbrev pub num_fielders : ℕ
num_fielders = 4

abbrev pub fielders : List ℕ
fielders = 10 ∷ 20 ∷ 30 ∷ 40 ∷ []

-- abs(score - f)
abbrev pub distance : ℕ → ℕ → ℕ
distance score f = if ltb score f then f - score else score - f

-- The loop of findClosestFielder over the fielders from index i; `none` is -1.
unfoldable pub closest_from : ℕ → List ℕ → ℕ → Option ℕ → Option ℕ
closest_from score [] i closest = closest
closest_from score (f ∷ fs) i closest = closest_from score fs (i + 1) (elim closest [
  | none ↦ some i
  | some c ↦
      if ltb (distance score f) (distance score (get_or fielders c 0)) then some i else some c
])

unfoldable pub find_closest_fielder : ℕ → Option ℕ
unfolding closest_from
find_closest_fielder score = closest_from score fielders 0 none

-- A hit that can be caught: score%6!=0 && score%4!=0.
abbrev pub in_the_air : ℕ → Bool
in_the_air score = not (score % 6 == 0) && not (score % 4 == 0)

-- One round of fielder.c: whether fielder my_id tells the umpire that it caught the ball.
unfoldable pub catches : ℕ → ℕ → Bool
catches my_id score =
    in_the_air score && elim (find_closest_fielder score) [ none ↦ false | some c ↦ my_id == c ]

-- umpire.c

pub record Umpire : Type 0 where
  pub batsman_score : List ℕ
  pub current_batsman : ℕ
  pub total_score : ℕ

abbrev pub max_batsmen : ℕ
max_batsmen = 20

-- What ends the umpire's wait for the batsman.
pub data Wait : Type 0 where
  hit : Wait  -- SIGUSR2
  timeout : Wait  -- EAGAIN after three seconds
  failed : Wait  -- another error

-- ++current_batsman
abbrev pub out : Umpire → Umpire
out u = record u { current_batsman = u.current_batsman + 1 }

abbrev pub runs : ℕ → ℕ
runs score = if score % 6 == 0 then 6 else if score % 4 == 0 then 4 else score

-- batsman_score[current_batsman] += score; `none` is a write past the array.
unfoldable pub add_runs : ℕ → Umpire → Option Umpire
add_runs score u = elim (get_elem? u.batsman_score u.current_batsman) [
  | none ↦ none
  | some s ↦ some (record u {
    total_score = u.total_score + score;
    batsman_score = set u.batsman_score u.current_batsman (s + score);
  })
]

-- One round of the loop of umpire.c: the end of the wait, the score that was read from the batsman's
-- packet, and the umpire's scoreboard. A catch is reported before the batsman is out.
unfoldable pub umpire_round : Wait → ℕ → Umpire → Option Umpire
unfolding add_runs
umpire_round timeout score u = some (out u)
umpire_round failed score u = some u
umpire_round hit score u = if in_the_air score then some (out u) else add_runs (runs score) u

abbrev pub new_umpire : Umpire
new_umpire = record {
  batsman_score = replicate max_batsmen 0;
  current_batsman = 0;
  total_score = 0;
}

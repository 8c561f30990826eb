-- ===== src/Cricket/Scoring.antt =====
-- The umpire's scoreboard over an innings, and the array of twenty batsmen behind it.
use cn_lab.Base.{
  ℕ, zero, suc, ◌+◌, ◌≤◌, ◌<◌, ◌%◌, ◌≡◌, ◌≢◌, refl, ◌⊎◌, inl, inr, Option, none, some, List, [],
  ◌∷◌, Bool, true, false, not, ◌∙◌, arith, if◌then◌else◌, length, get_elem?, set, sum, length-set,
  Bool-cases,
}
use cn_lab.Cricket.{
  Umpire, Wait, hit, timeout, failed, max_batsmen, in_the_air, out, runs, add_runs, umpire_round,
  new_umpire,
}

-- What holds between two rounds: the total is the sum of the batsmen's scores.
pub record IsScored (u : Umpire) : Type 0 where
  pub totalled : u.total_score ≡ sum u.batsman_score
  pub twenty : length u.batsman_score ≡ max_batsmen

sum-set : (xs : List ℕ) (i s k : ℕ) → get_elem? xs i ≡ some s → sum (set xs i (s + k)) ≡ sum xs + k
sum-set [] i s k h = cc
sum-set (x ∷ xs) zero s k h = ground arith
sum-set (x ∷ xs) (suc i) s k h = omega (arith, sum-set xs i s k h)

get_elem?-in_range :
    {A : Type 0} (xs : List A) (i : ℕ) → i < length xs → (a : A) × (get_elem? xs i ≡ some a)
get_elem?-in_range [] i h = absurd (omega arith)
get_elem?-in_range (x ∷ xs) zero h = (x, refl)
get_elem?-in_range (x ∷ xs) (suc i) h = get_elem?-in_range xs i (omega arith)

get_elem?-past_end : {A : Type 0} (xs : List A) (i : ℕ) → length xs ≤ i → get_elem? xs i ≡ none
get_elem?-past_end [] i h = refl
get_elem?-past_end (x ∷ xs) zero h = absurd (omega arith)
get_elem?-past_end (x ∷ xs) (suc i) h = get_elem?-past_end xs i (omega arith)

-- A round scores: a hit that is not in the air.
abbrev pub is_scoring : Wait → ℕ → Bool
is_scoring hit score = not (in_the_air score)
is_scoring _ score = false

abbrev pub is_out : Wait → ℕ → Bool
is_out hit score = in_the_air score
is_out timeout score = true
is_out failed score = false

add_runs_in_range :
    (k : ℕ) (u : Umpire)
    → IsScored u
    → u.current_batsman < max_batsmen
    → (v : Umpire) × (add_runs k u ≡ some v)
      × (v.current_batsman ≡ u.current_batsman)
      × (v.total_score ≡ u.total_score + k)
      × IsScored v
unfolding add_runs
add_runs_in_range k u h lt =
    let (s, e) = get_elem?-in_range u.batsman_score u.current_batsman (omega (arith, h.twenty)) in
    (
      record u {
        total_score = u.total_score + k;
        batsman_score = set u.batsman_score u.current_batsman (s + k);
      },
      rw (e, add_runs),
      refl,
      refl,
      record {
        totalled = omega (arith, sum-set u.batsman_score u.current_batsman s k e, h.totalled);
        twenty = length-set u.batsman_score u.current_batsman (s + k) ∙ h.twenty;
      },
    )

add_runs_past_end :
    (k : ℕ) (u : Umpire) → IsScored u → max_batsmen ≤ u.current_batsman → add_runs k u ≡ none
unfolding add_runs
add_runs_past_end k u h le =
    rw (get_elem?-past_end u.batsman_score u.current_batsman (omega (arith, h.twenty)), add_runs)
      refl

abbrev one_if : Bool → ℕ
one_if b = if b then 1 else 0

abbrev pub runs_of : Wait → ℕ → ℕ
runs_of w score = if is_scoring w score then runs score else 0

-- While fewer than twenty batsmen are out a round of the umpire never leaves the array: it adds one
-- to the batsmen out after a timeout or a hit in the air, adds the runs of any other hit to the
-- total, and keeps the total equal to the sum of the batsmen's scores.
pub umpire_round_lem :
    (w : Wait) (score : ℕ) (u : Umpire)
    → IsScored u
    → u.current_batsman < max_batsmen
    → (v : Umpire) × (umpire_round w score u ≡ some v)
      × (v.current_batsman ≡ u.current_batsman + one_if (is_out w score))
      × (v.total_score ≡ u.total_score + runs_of w score)
      × IsScored v
unfolding umpire_round
umpire_round_lem timeout score u h lt =
    (out u, refl, refl, omega arith, record { totalled = h.totalled; twenty = h.twenty })
umpire_round_lem failed score u h lt = (u, refl, omega arith, omega arith, h)
umpire_round_lem hit score u h lt = elim (Bool-cases (in_the_air score)) [
  | inl air ↦ (
    out u,
    rw air,
    rw air,
    rw air (omega arith),
    record { totalled = h.totalled; twenty = h.twenty },
  )
  | inr ground_ball ↦
      let (v, e, same, total, scored) = add_runs_in_range (runs score) u h lt in
      (v, rw ground_ball e, rw ground_ball (omega arith), rw ground_ball total, scored)
]

-- Once twenty batsmen are out, the next hit that scores is a write past batsman_score.
pub umpire_round_overrun :
    (score : ℕ) (u : Umpire)
    → IsScored u
    → max_batsmen ≤ u.current_batsman
    → in_the_air score ≡ false
    → umpire_round hit score u ≡ none
unfolding umpire_round
umpire_round_overrun score u h le e = rw e (add_runs_past_end (runs score) u h le)

-- The loop of umpire.c over what it meets in each round.
unfoldable pub play : List (Wait × ℕ) → Umpire → Option Umpire
play [] u = some u
play ((w, score) ∷ rounds) u = elim (umpire_round w score u) [
  | none ↦ none
  | some v ↦ play rounds v
]

abbrev pub outs : List (Wait × ℕ) → ℕ
outs [] = 0
outs ((w, score) ∷ rounds) = one_if (is_out w score) + outs rounds

abbrev pub total_runs : List (Wait × ℕ) → ℕ
total_runs [] = 0
total_runs ((w, score) ∷ rounds) = runs_of w score + total_runs rounds

play_from :
    (rounds : List (Wait × ℕ)) (u : Umpire)
    → IsScored u
    → u.current_batsman + outs rounds < max_batsmen
    → (v : Umpire) × (play rounds u ≡ some v)
      × (v.current_batsman ≡ u.current_batsman + outs rounds)
      × (v.total_score ≡ u.total_score + total_runs rounds)
      × IsScored v
unfolding play
play_from [] u h lt = (u, refl, omega arith, omega arith, h)
play_from ((w, score) ∷ rounds) u h lt =
    let (v, e, current, total, scored) = umpire_round_lem w score u h (omega arith) in
    let (v', e', current', total', scored') = play_from rounds v scored (omega arith) in
    (v', rw (e, play) e', omega arith, omega arith, scored')

-- An innings with fewer than twenty outs runs to its end; the board then shows the number of outs,
-- the runs of all hits that were not in the air, and a total that is the sum over the batsmen.
pub play-innings :
    (rounds : List (Wait × ℕ))
    → outs rounds < max_batsmen
    → (v : Umpire) × (play rounds new_umpire ≡ some v)
      × (v.current_batsman ≡ outs rounds)
      × (v.total_score ≡ total_runs rounds)
      × (v.total_score ≡ sum v.batsman_score)
play-innings rounds lt =
    let (v, e, current, total, scored) =
      play_from rounds new_umpire (record { totalled = refl; twenty = refl }) (omega arith) in
    (v, e, omega arith, omega arith, scored.totalled)

-- A hit that is not in the air is worth six if its number is a multiple of six, 0 included, and else
-- four.
pub runs_lem :
    (score : ℕ)
    → in_the_air score ≡ false
    → ((score % 6 ≡ 0) × (runs score ≡ 6)) ⊎ ((score % 6 ≢ 0) × (score % 4 ≡ 0) × (runs score ≡ 4))
runs_lem score h = grind arith

-- ===== src/Cricket/Fielding.antt =====
-- Who catches a ball: findClosestFielder and the fielders' reports.
use cn_lab.Base.{
  ℕ, zero, suc, ◌≤◌, ◌<◌, ◌≡◌, ap, ◌∙◌, some, [], ◌∷◌, arith, Bool, ◌&&◌, ◌==◌, leb, if◌then◌else◌,
  get_or, map, sum,
}
use mathlib.Core.Path.{fun_ext}
use cn_lab.Cricket.{fielders, distance, find_closest_fielder, in_the_air, catches, num_fielders}

-- The fielder whose stretch of the field a score falls into.
unfoldable pub region : ℕ → ℕ
region score = if leb score 15 then 0 else if leb score 25 then 1 else if leb score 35 then 2 else 3

find_closest_fielder-region : (score : ℕ) → find_closest_fielder score ≡ some (region score)
unfolding find_closest_fielder region
find_closest_fielder-region score = ground arith

abbrev pub distance_to : ℕ → ℕ → ℕ
distance_to i score = distance score (get_or fielders i 0)

region_nearest :
    (score j : ℕ)
    → j < num_fielders
    → (distance_to (region score) score ≤ distance_to j score)
      × (j < region score → distance_to (region score) score < distance_to j score)
unfolding region
region_nearest score zero h = (ground arith, λ p. ground arith)
region_nearest score (suc zero) h = (ground arith, λ p. ground arith)
region_nearest score (suc (suc zero)) h = (ground arith, λ p. ground arith)
region_nearest score (suc (suc (suc zero))) h = (ground arith, λ p. ground arith)
region_nearest score (suc (suc (suc (suc j)))) h = absurd (omega arith)

region-lt : (score : ℕ) → region score < num_fielders
unfolding region
region-lt score = ground arith

-- For every score findClosestFielder returns a fielder at the least distance, and of those at equal
-- distance the one with the smallest index.
pub find_closest_fielder-nearest :
    (score : ℕ)
    → (c : ℕ) × (find_closest_fielder score ≡ some c)
      × (c < num_fielders)
      × ((j : ℕ) → j < num_fielders → distance_to c score ≤ distance_to j score)
      × ((j : ℕ) → j < c → distance_to c score < distance_to j score)
find_closest_fielder-nearest score = (
  region score,
  find_closest_fielder-region score,
  region-lt score,
  λ j h. (region_nearest score j h).0,
  λ j h. (region_nearest score j (omega (arith, region-lt score))).1 h,
)

abbrev one_if : Bool → ℕ
one_if b = if b then 1 else 0

-- The packets that the fielders 0 to 3 send to the umpire after a hit.
abbrev pub reports : ℕ → ℕ
reports score = sum (map (λ i. one_if (catches i score)) (0 ∷ 1 ∷ 2 ∷ 3 ∷ []))

catches-region : (i score : ℕ) → catches i score ≡ (in_the_air score && i == region score)
unfolding catches
catches-region i score = rw (find_closest_fielder-region score)

one_report :
    (r : ℕ) (b : Bool)
    → r < num_fielders
    → sum (map (λ i. one_if (b && i == r)) (0 ∷ 1 ∷ 2 ∷ 3 ∷ [])) ≡ one_if b
one_report zero b h = ground arith
one_report (suc zero) b h = ground arith
one_report (suc (suc zero)) b h = ground arith
one_report (suc (suc (suc zero))) b h = ground arith
one_report (suc (suc (suc (suc r)))) b h = absurd (omega arith)

-- After a hit in the air exactly one of the four fielders reports a catch, after any other none: as
-- many reports as the umpire reads.
pub reports-in_the_air : (score : ℕ) → reports score ≡ (if in_the_air score then 1 else 0)
reports-in_the_air score =
    ap (λ (f : ℕ → ℕ). sum (map f (0 ∷ 1 ∷ 2 ∷ 3 ∷ [])))
      (fun_ext (λ i. ap one_if (catches-region i score)))
    ∙ (one_report (region score) (in_the_air score) (region-lt score))

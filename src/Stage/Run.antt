-- ===== src/Stage/Run.antt =====
-- What the stage and the anchor print of a performance.
use cn_lab.Base.{ℕ, suc, ◌+◌, ◌%◌, ◌≡◌, Option, some, List, [], ◌∷◌, ◌++◌, false, codes}
use cn_lab.Base.Packet.{same_text}
use cn_lab.Base.Decimal.{decimal}
use cn_lab.Stage.{Text, exit_line, signal_to, score_str, judge, with_judge}

abbrev pub joined : List Text → Text
joined [] = []
joined (m ∷ ms) = m ++ joined ms

-- A text that is not a given one.
abbrev pub IsOther : Text → Text → Type 0
IsOther stop m = same_text m stop ≡ false

abbrev pub IsQuestion : Text → Type 0
IsQuestion m = IsOther (codes "exit") m × IsOther exit_line m

abbrev judges : ℕ → (ℕ → List Text) → (ℕ → ℕ) → Option (List Text × List Text)
judges j lines rand =
    let run = λ (i : ℕ). judge (signal_to j i) (rand i) (lines i) in
    with_judge (run 0) (with_judge (run 1) (with_judge (run 2) (some ([], []))))

abbrev scores : (ℕ → ℕ) → List Text
scores rand = score_str (rand 0) ∷ score_str (rand 1) ∷ score_str (rand 2) ∷ []

-- The line on the score of judge i + 1, in front of other lines.
abbrev pub score_line : ℕ → ℕ → Text → Text
score_line i rand more =
    codes "judge"
    ++ (decimal (suc i) ++ (codes " score: " ++ (decimal (rand % 10 + 1) ++ b'\n' ∷ more)))

abbrev pub score_lines : (ℕ → ℕ) → Text
score_lines rand = score_line 0 (rand 0) (score_line 1 (rand 1) (score_line 2 (rand 2) []))

-- ===== src/Stage/Samples.antt =====
-- The theorem on the stage show at a concrete performance.
use cn_lab.Base.{ℕ, ◌+◌, List, [], ◌∷◌, ◌++◌, codes}
use cn_lab.Stage.{Text, exit_line}

abbrev line : Text → Text
line text = text ++ b'\n' ∷ []

abbrev act : List Text
act = line (codes "la la") ∷ line (codes "la") ∷ []

abbrev questions : List Text
questions = line (codes "who are you?") ∷ []

abbrev answers : List Text
answers = line (codes "a singer") ∷ []

abbrev judge_lines : ℕ → List Text
judge_lines i = questions ++ exit_line ∷ []

abbrev rand : ℕ → ℕ
rand i = 7 + i

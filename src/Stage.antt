-- ===== src/Stage.antt =====
-- The stage show of 4-3-22/online_stage_show: the performer p.c sends what it performs to the stage
-- s.c, then the answers to the questions of one judge; the anchor a.c chooses this judge and collects
-- a score from each of the three judges j1.c, j2.c and j3.c, which differ in nothing. A program that
-- reads lines is given them as a list, each with its '\n'; a text that one send writes is what one
-- recv reads, as all buffers have 100 bytes.
pub mod Run
mod Samples
use cn_lab.Base.{
  ℕ, zero, suc, ◌+◌, ◌%◌, Option, none, some, List, [], ◌∷◌, ◌++◌, map, Bool, ◌==◌, if◌then◌else◌,
  codes,
}
use cn_lab.Base.Decimal.{decimal, atoi}
use cn_lab.Base.Packet.{same_text}

abbrev pub Text : Type 0
Text = List ℕ

abbrev pub exit_line : Text
exit_line = codes "exit" ++ b'\n' ∷ []

abbrev pub with_text : Text → Option (List Text × List Text) → Option (List Text × List Text)
with_text m none = none
with_text m (some (sent, lines)) = some (m ∷ sent, lines)

-- The loops of p.c over its performance and of a judge over its questions: what is sent, and the
-- lines that are left; `none` at the end of the input, where fgets fails and the loop goes on for
-- good.
unfoldable pub send_lines : List Text → Option (List Text × List Text)
send_lines [] = none
send_lines (buf ∷ lines) =
    let rest = send_lines lines in
    if same_text buf exit_line then some (buf ∷ [], lines) else with_text buf rest

abbrev pub with_answer : Text → Option (List Text) → Option (List Text)
with_answer m none = none
with_answer m (some sent) = some (m ∷ sent)

-- The second loop of p.c, over the questions that it receives and its own lines; `none` where it has
-- no line or waits for another question.
unfoldable pub answer_loop : List Text → List Text → Option (List Text)
answer_loop [] lines = none
answer_loop (buf ∷ questions) [] =
    if same_text buf (codes "exit")
    then some (buf ∷ [])
    else (if same_text buf exit_line then some (buf ∷ []) else none)
answer_loop (buf ∷ questions) (line ∷ lines) =
    let rest = answer_loop questions lines in
    if same_text buf (codes "exit")
    then some (buf ∷ [])
    else (if same_text buf exit_line then some (buf ∷ []) else with_answer line rest)

abbrev pub after_act : List Text → Option (List Text) → Option (List Text)
after_act sent none = none
after_act sent (some answers) = some (sent ++ answers)

abbrev pub then_answer : List Text → Option (List Text × List Text) → Option (List Text)
then_answer questions none = none
then_answer questions (some (sent, lines)) = after_act sent (answer_loop questions lines)

-- What p.c sends to the stage.
unfoldable pub performer : List Text → List Text → Option (List Text)
performer lines questions = then_answer questions (send_lines lines)

abbrev pub with_printed : Text → Text × List Text → Text × List Text
with_printed m (printed, rest) = (m ++ printed, rest)

-- The loops of s.c: what is printed up to a text or the end of the connection, and what is left.
unfoldable pub print_until : Text → List Text → Text × List Text
print_until stop [] = ([], [])
print_until stop (buf ∷ texts) =
    let rest = print_until stop texts in
    if same_text buf stop then ([], texts) else with_printed buf rest

abbrev pub started : Text
started = codes "performance started" ++ b'\n' ∷ b'\n' ∷ []

-- What s.c prints of a performance before and after it signals the anchor.
unfoldable pub stage : List Text → Text × Text
stage texts =
    let (acted, rest) = print_until exit_line texts in
    (started ++ acted, (print_until (codes "exit") rest).0)

-- sig_s_handler of a.c: the signal for judge i, if judge j is chosen.
pub data Signal : Type 0 where
  sigusr1 sigusr2 : Signal

abbrev pub signal_to : ℕ → ℕ → Signal
signal_to j i = if i == j then Signal.sigusr1 else Signal.sigusr2

abbrev pub score_str : ℕ → Text
score_str rand = decimal (rand % 10 + 1)

abbrev pub with_score : Text → Option (List Text × List Text) → Option (List Text × Text)
with_score score none = none
with_score score (some (sent, lines)) = some (sent, score)

-- sig_A1_handler and sig_A2_handler of a judge: the questions to the performer and the score.
unfoldable pub judge : Signal → ℕ → List Text → Option (List Text × Text)
judge Signal.sigusr1 rand lines = with_score (score_str rand) (send_lines lines)
judge Signal.sigusr2 rand lines = some ([], score_str rand)

-- The judges, in their order: the questions, which come from one of them, and the scores.
abbrev pub with_judge :
    Option (List Text × Text) → Option (List Text × List Text) → Option (List Text × List Text)
with_judge none more = none
with_judge (some one) none = none
with_judge (some (questions, score)) (some (others, scores)) =
    some (questions ++ others, score ∷ scores)

-- The lines that a.c prints for the scores, from judge i + 1 on.
abbrev pub announce : ℕ → List Text → Text
announce i [] = []
announce i (buf ∷ bufs) =
    codes "judge"
    ++ (decimal (suc i)
        ++ (codes " score: " ++ (decimal (atoi buf) ++ (b'\n' ∷ announce (suc i) bufs))))

pub record Show : Type 0 where
  pub acted : Text
  pub answered : Text
  pub announced : Text

abbrev pub asks : ℕ → Text
asks j = codes "judge " ++ (decimal (j + 1) ++ (codes " asks questions" ++ b'\n' ∷ []))

abbrev pub on_stage : ℕ → List Text → Option (List Text) → Option Show
on_stage j scores none = none
on_stage j scores (some texts) = some (record {
  acted = (stage texts).0;
  answered = (stage texts).1;
  announced = asks j ++ announce 0 scores;
})

abbrev pub perform : ℕ → List Text → Option (List Text × List Text) → Option Show
perform j lines none = none
perform j lines (some (questions, scores)) = on_stage j scores (performer lines questions)

-- A whole performance: the performer's lines, the judge that a.c chooses, and the lines and the
-- random numbers of the judges; `none` if somebody's input ends too early.
unfoldable pub show : List Text → ℕ → (ℕ → List Text) → (ℕ → ℕ) → Option Show
show lines j judge_lines rand =
    let run = λ (i : ℕ). judge (signal_to j i) (rand i) (judge_lines i) in
    perform j lines (with_judge (run 0) (with_judge (run 1) (with_judge (run 2) (some ([], [])))))

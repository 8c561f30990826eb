-- ===== src/Judge/Samples.antt =====
-- The theorem on the judge at a concrete test case, and a test without an expected file.
use cn_lab.Base.{ℕ, ◌≡◌, refl, none, some, List, [], ◌∷◌, false, true, arith}
use cn_lab.Base.Packet.{NoNul, same_text}
use cn_lab.Judge.{compare_test_case, compare_loop}
use cn_lab.Judge.Verdict.{verdict, compare_test_case-verdict}

abbrev seven : List ℕ
seven = b'7' ∷ b'\n' ∷ []

abbrev eight : List ℕ
eight = b'8' ∷ b'\n' ∷ []

seven-NoNul : NoNul seven
seven-NoNul = (ground arith, (ground arith, tt))

eight-NoNul : NoNul eight
eight-NoNul = (ground arith, (ground arith, tt))

compare_test_case-verdict_example :
    compare_test_case (some seven) (some eight) ≡ verdict seven eight
compare_test_case-verdict_example =
    compare_test_case-verdict (some seven) (some eight) seven-NoNul eight-NoNul

is_failed : verdict seven eight ≡ some false
unfolding same_text
is_failed = refl

is_passed_unseen : compare_test_case none (some eight) ≡ some true
unfolding compare_test_case compare_loop
is_passed_unseen = refl

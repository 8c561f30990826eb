-- ===== src/Hamming/Samples.antt =====
-- The theorem on the Hamming code at the text 1001, and a test.
use cn_lab.Base.{ℕ, ◌≡◌, refl, some, List, [], ◌∷◌, All, inl, inr, arith}
use cn_lab.Hamming.{check_and_correct, hamming_code_gen, hamming_length, redundant, mutate}
use cn_lab.Hamming.Data.{IsBit}
use cn_lab.Hamming.Correct.{check_and_correct-hamming_code_gen}

abbrev text : List ℕ
text = b'1' ∷ b'0' ∷ b'0' ∷ b'1' ∷ []

text-IsBit : All IsBit text
text-IsBit = (inr refl, (inl refl, (inl refl, (inr refl, tt))))

abbrev first_seven : (ℕ → ℕ) → List ℕ
first_seven hc = hc 0 ∷ hc 1 ∷ hc 2 ∷ hc 3 ∷ hc 4 ∷ hc 5 ∷ hc 6 ∷ []

-- As in the comment of check.cpp.
code_test :
    first_seven (hamming_code_gen text) ≡ b'0' ∷ b'0' ∷ b'1' ∷ b'1' ∷ b'0' ∷ b'0' ∷ b'1' ∷ []
unfolding hamming_code_gen hamming_length redundant
code_test = refl

check_and_correct-hamming_code_gen_example :
    check_and_correct (hamming_length 4) (mutate 6 (hamming_code_gen text))
    ≡ some (hamming_code_gen text)
check_and_correct-hamming_code_gen_example =
    check_and_correct-hamming_code_gen text 6 text-IsBit
      (unfold hamming_length redundant in omega arith)

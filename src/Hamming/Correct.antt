-- ===== src/Hamming/Correct.antt =====
-- What check.cpp makes of a code word with at most one wrong bit.
use cn_lab.Base.{
  ℕ, zero, suc, ◌-◌, ◌%◌, ◌^◌, ◌≤◌, ◌<◌, ◌≡◌, refl, ap, sym, ◌∙◌, some, List, All, length, false,
  ltb, ◌==◌, if◌then◌else◌, Bool-cases, inl, inr, arith,
}
use cn_lab.Base.Bits.{bit_of-zero, bit_and-pow, lt_of-pow}
use cn_lab.Hamming.{
  is_check, meets, fill, one_count, set_checks, mutated_bit, flipped, mutate, check_and_correct,
  hamming_length, hamming_code_gen,
}
use cn_lab.Hamming.Syndrome.{met_checks, met_checks_lem, pow_of-is_check}
use cn_lab.Hamming.Parity.{IsEven, one_count-put, set_checks-AreSet}
use cn_lab.Hamming.Data.{IsBit, code-Frame, code-IsBit, start-AreSet}
use mathlib.Core.Path.{fun_ext}

-- The count of a check bit is odd just when it covers the position that was turned round.
odd_where_met :
    (hl q k : ℕ) (hc : ℕ → ℕ)
    → q ≤ hl
    → IsEven hl hc k
    → one_count (2 ^ k) (mutate q hc) hl % 2 ≡ (if meets q (2 ^ k) then 1 else 0)
odd_where_met hl zero k hc le even = ground (arith, even, bit_and-pow 0 k, bit_of-zero k)
odd_where_met hl (suc i) k hc le even =
    ground (arith, even, one_count-put (2 ^ k) i (flipped (hc i)) hl hc (omega arith))

mutated_bit-mutate :
    (hl r q n : ℕ) (hc : ℕ → ℕ)
    → q ≤ hl
    → n ≤ hl
    → hl < 2 ^ r
    → ((k : ℕ) → k < r → IsEven hl hc k)
    → mutated_bit hl (mutate q hc) n ≡ met_checks q n
mutated_bit-mutate hl r q zero hc le len above even = refl
mutated_bit-mutate hl r q (suc n) hc le len above even =
    let ih = mutated_bit-mutate hl r q n hc le (omega arith) above even in
    elim (Bool-cases (is_check n)) [
      | inl power ↦
          let (k, e) = pow_of-is_check n power in
          let kr : k < r = lt_of-pow k r (omega (arith, above, e)) in
          let odd : one_count (suc n) (mutate q hc) hl % 2 ≡ (if meets q (suc n) then 1 else 0) =
            rw (sym e) at (odd_where_met hl q k hc le (even k kr)) in
          rw (power, ih) (ground (arith, odd))
      | inr other ↦ rw (other, ih) refl
    ]

flipped_twice : (c : ℕ) → IsBit c → flipped (flipped c) ≡ c
flipped_twice c h = ground arith

mutate_twice : (i : ℕ) (hc : ℕ → ℕ) → IsBit (hc i) → mutate (suc i) (mutate (suc i) hc) ≡ hc
mutate_twice i hc h = fun_ext (λ j. ground (arith, flipped_twice (hc i) h))

check_and_correct-mutate :
    (hl q : ℕ) (hc : ℕ → ℕ)
    → q ≤ hl
    → ((j : ℕ) → j < hl → IsBit (hc j))
    → mutated_bit hl (mutate q hc) hl ≡ q
    → check_and_correct hl (mutate q hc) ≡ some hc
unfolding check_and_correct
check_and_correct-mutate hl zero hc le bits e = rw e refl
check_and_correct-mutate hl (suc i) hc le bits e =
    let inside : ltb hl (suc i) ≡ false = ground arith in
    let before : suc i - 1 ≡ i = omega arith in
    let wrong : (suc i == 0) ≡ false = ground arith in
    rw (e, wrong, inside, before) (ap some (mutate_twice i hc (bits i (omega arith))))

-- For every text of '0' and '1', whatever its length: when at most one bit of its code word is turned
-- round, a check bit or another, checkAndCorrect stays inside the string and gives the code word
-- back.
pub check_and_correct-hamming_code_gen :
    (b : List ℕ) (bit : ℕ)
    → All IsBit b
    → bit ≤ hamming_length (length b)
    → check_and_correct (hamming_length (length b)) (mutate bit (hamming_code_gen b))
      ≡ some (hamming_code_gen b)
unfolding hamming_code_gen
check_and_correct-hamming_code_gen b bit h le =
    let hl = hamming_length (length b) in
    let r = hl - length b in
    let frame = code-Frame b in
    let hc = set_checks hl (fill b hl).0 r in
    let set =
      set_checks-AreSet hl r r (fill b hl).0 (omega arith) frame.inside (start-AreSet b hl r) in
    let found =
      mutated_bit-mutate hl r bit hl hc le (omega arith) frame.outside set.even
      ∙ met_checks_lem hl bit le in
    check_and_correct-mutate hl bit hc le (λ j lt. code-IsBit b hl r j frame h lt) found

-- ===== src/Hamming.antt =====
-- The Hamming code of 12-2-22/HammingCode: gen.cpp adds check bits to a text of '0' and '1', and
-- check.cpp finds and turns round a wrong bit. A string is its length and the byte at each index; a
-- loop over i is a function of the number of rounds that have been made.
pub mod Length
pub mod Syndrome
pub mod Parity
pub mod Data
pub mod Correct
mod Samples
use cn_lab.Base.{
  ℕ, zero, suc, ◌+◌, ◌-◌, ◌%◌, ◌^◌, Option, none, some, List, Bool, true, false, not, ◌&&◌, ◌==◌,
  ltb, if◌then◌else◌, length, get_or,
}
use Prim.Native.Nat.{bit_and}

-- The loop of hammingLength, at most `fuel` times; pow is exact on these numbers.
unfoldable pub redundant : (fuel l r : ℕ) → ℕ
redundant zero l r = r
redundant (suc fuel) l r =
    let more = redundant fuel l (suc r) in if ltb (2 ^ r) (l + r + 1) then more else r

unfoldable pub hamming_length : ℕ → ℕ
hamming_length l = l + redundant (suc l) l 0

-- ((i+1)&i) == 0, and whether (j+1)&check is not 0.
abbrev pub is_check : ℕ → Bool
is_check i = bit_and (suc i) i == 0

abbrev pub meets : ℕ → ℕ → Bool
meets a check = not (bit_and a check == 0)

-- hc[i] = c
abbrev pub put : ℕ → ℕ → (ℕ → ℕ) → ℕ → ℕ
put i c hc j = if j == i then c else hc j

-- hc and idx after n rounds of the first loop of hammingCodeGen.
abbrev pub fill : List ℕ → ℕ → (ℕ → ℕ) × ℕ
fill b zero = ((λ j. b'-'), 0)
fill b (suc n) =
    let (hc, idx) = fill b n in
    if is_check n then (hc, idx) else (put n (get_or b idx 0) hc, suc idx)

-- one_count after n rounds, in both programs.
abbrev pub one_count : ℕ → (ℕ → ℕ) → ℕ → ℕ
one_count check hc zero = 0
one_count check hc (suc n) =
    one_count check hc n + (if meets (suc n) check && (hc n == b'1') then 1 else 0)

-- hc after n rounds of the second loop.
abbrev pub set_check : ℕ → (ℕ → ℕ) → ℕ → ℕ → ℕ
set_check hl hc i = put (2 ^ i - 1) (if one_count (2 ^ i) hc hl % 2 == 1 then b'1' else b'0') hc

abbrev pub set_checks : ℕ → (ℕ → ℕ) → ℕ → ℕ → ℕ
set_checks hl hc zero = hc
set_checks hl hc (suc n) = set_check hl (set_checks hl hc n) n

unfoldable pub hamming_code_gen : List ℕ → ℕ → ℕ
hamming_code_gen b =
    let hl = hamming_length (length b) in set_checks hl (fill b hl).0 (hl - length b)

-- mutated_bit of checkAndCorrect after n rounds.
abbrev pub mutated_bit : ℕ → (ℕ → ℕ) → ℕ → ℕ
mutated_bit hl hc zero = 0
mutated_bit hl hc (suc n) =
    mutated_bit hl hc n + (if is_check n && (one_count (suc n) hc hl % 2 == 1) then suc n else 0)

abbrev pub flipped : ℕ → ℕ
flipped c = if c == b'1' then b'0' else b'1'

-- checkAndCorrect on a string of length hl; `none` is an index outside the string.
unfoldable pub check_and_correct : ℕ → (ℕ → ℕ) → Option (ℕ → ℕ)
check_and_correct hl hc =
    let bit = mutated_bit hl hc hl in
    if bit == 0
    then some hc
    else (if ltb hl bit then none else some (put (bit - 1) (flipped (hc (bit - 1))) hc))

-- The bit that main of check.cpp turns round, or none for 0.
abbrev pub mutate : ℕ → (ℕ → ℕ) → ℕ → ℕ
mutate zero hc = hc
mutate (suc i) hc = put i (flipped (hc i)) hc

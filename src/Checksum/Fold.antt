-- ===== src/Checksum/Fold.antt =====
-- What the two rounds of carry compute: the sum modulo 65535, with 65535 for a positive multiple.
use cn_lab.Base.{ℕ, ◌+◌, ◌*◌, ◌/◌, ◌%◌, ◌≤◌, ◌<◌, ◌≡◌, refl, List, [], ◌∷◌, arith, length, All}
use cn_lab.Base.Words.{u32}
use native.Mathlib.Nat.{add_assoc}
use cn_lab.Checksum.{word, sum_words, sum_words_u32, fold, in_cksum, csum}

abbrev pub IsByte : ℕ → Type 0
IsByte b = b < 256

-- The quotient that the carries take off.
abbrev carried : ℕ → ℕ
carried s = s / 65536 + (s / 65536 + s % 65536) / 65536

-- A sum is a multiple of 65535 plus the complement of its checksum, which is 0 for the sum 0 alone.
pub fold_residue :
    (s : ℕ)
    → s < 4294967296
    → (k : ℕ) × (s + fold s ≡ 65535 * k + 65535) × (fold s ≤ 65535) × (0 < s → fold s < 65535)
unfolding fold
fold_residue s h = (carried s, omega arith, omega arith, λ p. omega arith)

-- The loop adds to its accumulator.
pub sum_words_shift : (bytes : List ℕ) (s t : ℕ) → sum_words (s + t) bytes ≡ s + sum_words t bytes
unfolding sum_words
sum_words_shift [] s t = refl
sum_words_shift (a ∷ []) s t = omega arith
sum_words_shift (a ∷ b ∷ rest) s t = rw add_assoc (sum_words_shift rest s (t + word a b))

sum_words-le :
    (bytes : List ℕ) (s : ℕ) → All IsByte bytes → sum_words s bytes ≤ s + 32768 * length bytes
unfolding sum_words
sum_words-le [] s h = omega arith
sum_words-le (a ∷ []) s h = omega arith
sum_words-le (a ∷ b ∷ rest) s (ha, (hb, h)) = omega (arith, sum_words-le rest (s + (a + b * 256)) h)

-- On a buffer of at most 65535 bytes, such as an IP packet, the sum of in_cksum stays below
-- 2 ^ 31, so that its int does not overflow.
pub sum_words-no_overflow :
    (bytes : List ℕ) → All IsByte bytes → length bytes ≤ 65535 → sum_words 0 bytes < 2147483648
sum_words-no_overflow bytes h fits = omega (arith, sum_words-le bytes 0 h)

sum_words_u32-eq :
    (bytes : List ℕ) (s : ℕ)
    → All IsByte bytes
    → s + 32768 * length bytes < 4294967296
    → sum_words_u32 s bytes ≡ sum_words s bytes
unfolding sum_words sum_words_u32
sum_words_u32-eq [] s h fits = refl
sum_words_u32-eq (a ∷ []) s h fits = omega arith
sum_words_u32-eq (a ∷ b ∷ rest) s (ha, (hb, h)) fits =
    let e : u32 (s + word a b) ≡ s + word a b = omega arith in
    rw e (sum_words_u32-eq rest (s + word a b) h (omega arith))

-- The int version and the unsigned version return the same checksum for every buffer of at most
-- 65535 bytes.
pub csum-in_cksum :
    (bytes : List ℕ) → All IsByte bytes → length bytes ≤ 65535 → csum bytes ≡ in_cksum bytes
unfolding csum in_cksum
csum-in_cksum bytes h fits = rw (sum_words_u32-eq bytes 0 h (omega arith))

pub in_cksum-le : (bytes : List ℕ) → in_cksum bytes ≤ 65535
unfolding in_cksum
in_cksum-le bytes = omega arith

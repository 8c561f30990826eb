-- ===== src/Checksum.antt =====
-- The Internet checksum: in_cksum of endlab/rpc.h and csum of 15-3-22_RAW/ip_spoofing/s.c. The
-- buffer is its list of bytes; a 16-bit word is read from two bytes, the low byte first.
pub mod Fold
pub mod Field
pub mod Spoof
mod Samples
use cn_lab.Base.{ℕ, ◌+◌, ◌-◌, ◌*◌, ◌/◌, ◌%◌, List, [], ◌∷◌}
use cn_lab.Base.Words.{u16, u32}

abbrev pub word : ℕ → ℕ → ℕ
word lo hi = lo + hi * 256

-- The loop over the words and the odd byte behind it: `answer`, which is 0, gets its low byte.
-- `sum` is an int, which does not wrap: Checksum.Fold shows that it stays below 2 ^ 31.
unfoldable pub sum_words : ℕ → List ℕ → ℕ
sum_words sum [] = sum
sum_words sum (a ∷ []) = sum + a
sum_words sum (a ∷ b ∷ rest) = sum_words (sum + word a b) rest

-- The same loop of csum, where `sum` is an unsigned int.
unfoldable pub sum_words_u32 : ℕ → List ℕ → ℕ
sum_words_u32 sum [] = sum
sum_words_u32 sum (a ∷ []) = u32 (sum + a)
sum_words_u32 sum (a ∷ b ∷ rest) = sum_words_u32 (u32 (sum + word a b)) rest

-- Two rounds of end-around carry, and the complement cut to 16 bits.
unfoldable pub fold : ℕ → ℕ
fold sum = let s = sum / 65536 + sum % 65536 in 65535 - u16 (s + s / 65536)

unfoldable pub in_cksum : List ℕ → ℕ
unfolding sum_words fold
in_cksum bytes = fold (sum_words 0 bytes)

unfoldable pub csum : List ℕ → ℕ
unfolding sum_words_u32 fold
csum bytes = fold (sum_words_u32 0 bytes)

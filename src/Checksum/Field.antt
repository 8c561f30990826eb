-- ===== src/Checksum/Field.antt =====
-- A checksum that is stored in the buffer that it covers, at an even offset, as the IP header does:
-- the receiver's sum, and which changes of a word it notices.
use cn_lab.Base.{
  ℕ, ◌+◌, ◌*◌, ◌/◌, ◌%◌, ◌≤◌, ◌<◌, ◌≡◌, ◌⊎◌, List, [], ◌∷◌, ◌++◌, arith, length, All, All-append,
  length-append,
}
use native.Mathlib.Nat.{add_comm, add-zero}
use cn_lab.Checksum.{word, sum_words, fold, in_cksum}
use cn_lab.Checksum.Fold.{IsByte, fold_residue, sum_words_shift, sum_words-no_overflow}

-- The word at an even offset counts once.
sum_words-append :
    (pre rest : List ℕ) (lo hi s : ℕ)
    → length pre % 2 ≡ 0
    → sum_words s (pre ++ lo ∷ hi ∷ rest) ≡ word lo hi + sum_words s (pre ++ 0 ∷ 0 ∷ rest)
unfolding sum_words
sum_words-append [] rest lo hi s even =
    rw (add_comm s (word lo hi), add-zero) (sum_words_shift rest (word lo hi) s)
sum_words-append (a ∷ []) rest lo hi s even = absurd (omega arith)
sum_words-append (a ∷ b ∷ pre) rest lo hi s even =
    sum_words-append pre rest lo hi (s + word a b) (omega arith)

-- The arithmetic of the two theorems below: the sum and its checksum make a multiple of 65535.
complement_cancels :
    (s c t d k k' : ℕ)
    → s + c ≡ 65535 * k + 65535
    → c ≤ 65535
    → t ≡ word (c % 256) (c / 256) + s
    → t + d ≡ 65535 * k' + 65535
    → (0 < t → d < 65535)
    → d ≡ 0
complement_cancels s c t d k k' e small stored e' positive =
    let below : d < 65535 = positive (omega arith) in omega arith

residues_collide :
    (s t z w w' c c' k k' : ℕ)
    → s ≡ w + z
    → t ≡ w' + z
    → s + c ≡ 65535 * k + 65535
    → t + c' ≡ 65535 * k' + 65535
    → c ≡ c'
    → w ≤ 65535
    → w' ≤ 65535
    → (w ≡ w') ⊎ (((w ≡ 0) × (w' ≡ 65535)) ⊎ ((w ≡ 65535) × (w' ≡ 0)))
residues_collide s t z w w' c c' k k' es et e e' same h h' = grind arith

stale_residue :
    (z w s c t d k k' : ℕ)
    → s ≡ w + z
    → s + c ≡ 65535 * k + 65535
    → t ≡ word (c % 256) (c / 256) + z
    → t + d ≡ 65535 * k' + 65535
    → d ≡ 0
    → w ≤ 65535
    → (w ≡ 0) ⊎ (w ≡ 65535)
stale_residue z w s c t d k k' es e et e' zero h = grind arith

-- The packet with a word at an even offset.
abbrev pub with_word : List ℕ → ℕ → ℕ → List ℕ → List ℕ
with_word pre lo hi rest = pre ++ lo ∷ hi ∷ rest

with_word-All :
    (pre rest : List ℕ) (lo hi : ℕ)
    → All IsByte pre
    → All IsByte rest
    → lo < 256
    → hi < 256
    → All IsByte (with_word pre lo hi rest)
with_word-All pre rest lo hi hp hr hl hh = All-append IsByte pre (lo ∷ hi ∷ rest) hp (hl, (hh, hr))

section_sum :
    (pre rest : List ℕ) (lo hi : ℕ)
    → All IsByte pre
    → All IsByte rest
    → lo < 256
    → hi < 256
    → length pre + length rest ≤ 65533
    → sum_words 0 (with_word pre lo hi rest) < 2147483648
section_sum pre rest lo hi hp hr hl hh fits =
    sum_words-no_overflow (with_word pre lo hi rest) (with_word-All pre rest lo hi hp hr hl hh)
      (omega (arith, length-append pre (lo ∷ hi ∷ rest)))

-- A sender computes the checksum with the field at 0 and stores it in the field; the receiver's
-- in_cksum over the packet is then 0. The field stands at an even offset, and the packet is of at
-- most 65535 bytes.
pub in_cksum-verifies :
    (pre rest : List ℕ)
    → All IsByte pre
    → All IsByte rest
    → length pre % 2 ≡ 0
    → length pre + length rest ≤ 65533
    → let c = in_cksum (with_word pre 0 0 rest) in
      in_cksum (with_word pre (c % 256) (c / 256) rest) ≡ 0
unfolding in_cksum
in_cksum-verifies pre rest hp hr even fits =
    let s = sum_words 0 (with_word pre 0 0 rest) in
    let c = fold s in
    let bound : s < 2147483648 = section_sum pre rest 0 0 hp hr (omega arith) (omega arith) fits in
    let (k, residue, small, _) = fold_residue s (omega arith) in
    let t = sum_words 0 (with_word pre (c % 256) (c / 256) rest) in
    let stored = sum_words-append pre rest (c % 256) (c / 256) 0 even in
    let bound' = section_sum pre rest (c % 256) (c / 256) hp hr (omega arith) (omega arith) fits in
    let (k', residue', _, positive) = fold_residue t (omega arith) in
    complement_cancels s (fold s) t (fold t) k k' residue small stored residue' positive

-- If two packets differ in one word only and have the same checksum, that word is 0x0000 in one and
-- 0xffff in the other: every other change of a word is noticed.
pub in_cksum-detects :
    (pre rest : List ℕ) (lo hi lo' hi' : ℕ)
    → All IsByte pre
    → All IsByte rest
    → (lo < 256) × (hi < 256) × (lo' < 256) × (hi' < 256)
    → length pre % 2 ≡ 0
    → length pre + length rest ≤ 65533
    → in_cksum (with_word pre lo hi rest) ≡ in_cksum (with_word pre lo' hi' rest)
    → (word lo hi ≡ word lo' hi')
      ⊎ (((word lo hi ≡ 0) × (word lo' hi' ≡ 65535)) ⊎ ((word lo hi ≡ 65535) × (word lo' hi' ≡ 0)))
unfolding in_cksum
in_cksum-detects pre rest lo hi lo' hi' hp hr (b0, b1, b2, b3) even fits same =
    let s = sum_words 0 (with_word pre lo hi rest) in
    let t = sum_words 0 (with_word pre lo' hi' rest) in
    let one = sum_words-append pre rest lo hi 0 even in
    let two = sum_words-append pre rest lo' hi' 0 even in
    let bound = section_sum pre rest lo hi hp hr b0 b1 fits in
    let bound' = section_sum pre rest lo' hi' hp hr b2 b3 fits in
    let (k, residue, _, _) = fold_residue s (omega arith) in
    let (k', residue', _, _) = fold_residue t (omega arith) in
    residues_collide s t (sum_words 0 (with_word pre 0 0 rest)) (word lo hi) (word lo' hi') (fold s)
      (fold t) k k' one two residue residue' same (omega arith) (omega arith)

-- A sender that computes the checksum while the field holds an old value, and then stores it, sends
-- a packet that verifies only if that value is 0x0000 or 0xffff.
pub in_cksum-stale :
    (pre rest : List ℕ) (lo hi : ℕ)
    → All IsByte pre
    → All IsByte rest
    → lo < 256
    → hi < 256
    → length pre % 2 ≡ 0
    → length pre + length rest ≤ 65533
    → let c = in_cksum (with_word pre lo hi rest) in
      in_cksum (with_word pre (c % 256) (c / 256) rest) ≡ 0
      → (word lo hi ≡ 0) ⊎ (word lo hi ≡ 65535)
unfolding in_cksum
in_cksum-stale pre rest lo hi hp hr hl hh even fits verified =
    let s = sum_words 0 (with_word pre lo hi rest) in
    let c = fold s in
    let bound : s < 2147483648 = section_sum pre rest lo hi hp hr hl hh fits in
    let (k, residue, small, _) = fold_residue s (omega arith) in
    let t = sum_words 0 (with_word pre (c % 256) (c / 256) rest) in
    let before = sum_words-append pre rest lo hi 0 even in
    let after = sum_words-append pre rest (c % 256) (c / 256) 0 even in
    let bound' = section_sum pre rest (c % 256) (c / 256) hp hr (omega arith) (omega arith) fits in
    let (k', residue', _, _) = fold_residue t (omega arith) in
    stale_residue (sum_words 0 (with_word pre 0 0 rest)) (word lo hi) s (fold s) t (fold t) k k'
      before residue after residue' verified (omega arith)

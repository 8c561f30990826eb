-- ===== src/Hamming/Data.antt =====
-- Every byte of a code word is '0' or '1'.
use cn_lab.Base.{
  ℕ, zero, suc, ◌+◌, ◌-◌, ◌^◌, ◌≤◌, ◌<◌, ◌≡◌, ◌⊎◌, refl, ap, List, [], ◌∷◌, All, length, get_or,
  true, false, ◌==◌, Bool-cases, inl, inr, arith,
}
use cn_lab.Hamming.{is_check, fill, set_check, set_checks, hamming_length}
use cn_lab.Hamming.Length.{length-IsLeast}
use cn_lab.Hamming.Syndrome.{checks, spans, pow_of-is_check, is_check-pow}
use cn_lab.Hamming.Parity.{AreSet}
use cn_lab.Base.Bits.{lt_of-pow}
use native.Mathlib.Nat.{one-le-pow}

abbrev pub IsBit : ℕ → Type 0
IsBit c = (c ≡ b'0') ⊎ (c ≡ b'1')

get_or-IsBit : (b : List ℕ) (i : ℕ) → All IsBit b → i < length b → IsBit (get_or b i 0)
get_or-IsBit [] i h lt = absurd (omega arith)
get_or-IsBit (c ∷ b) zero (hc, h) lt = hc
get_or-IsBit (c ∷ b) (suc i) (hc, h) lt = get_or-IsBit b i h (omega arith)

-- The first loop: as many bytes are taken from b as there are indices that are no check bits.
fill_taken : (b : List ℕ) (n : ℕ) → (fill b n).1 + checks n ≡ n
fill_taken b zero = refl
fill_taken b (suc n) = ground (arith, fill_taken b n)

fill-check : (b : List ℕ) (n j : ℕ) → is_check j ≡ true → (fill b n).0 j ≡ b'-'
fill-check b zero j h = refl
fill-check b (suc n) j h = ground (arith, fill-check b n j h)

fill-IsBit :
    (b : List ℕ) (n j : ℕ)
    → All IsBit b
    → (fill b n).1 ≤ length b
    → j < n
    → is_check j ≡ false
    → IsBit ((fill b n).0 j)
fill-IsBit b zero j h le lt other = absurd (omega arith)
fill-IsBit b (suc n) j h le lt other = elim (Bool-cases (is_check n)) [
  | inl power ↦
      let before : j < n = ground arith in
      rw power (fill-IsBit b n j h (rw power at le) before other)
  | inr plain ↦
      let room : suc (fill b n).1 ≤ length b = rw plain at le in
      elim (Bool-cases (j == n)) [
        | inl same ↦ rw (plain, same) (get_or-IsBit b (fill b n).1 h room)
        | inr before ↦ rw (plain, before) (fill-IsBit b n j h (omega arith) (ground arith) other)
      ]
]

-- A check bit is '0' or '1' from its round on.
set_check-IsBit : (hl n j : ℕ) (hc : ℕ → ℕ) → IsBit (hc j) → IsBit (set_check hl hc n j)
set_check-IsBit hl n j hc h = ground arith

set_checks-IsBit : (hl n j : ℕ) (hc : ℕ → ℕ) → IsBit (hc j) → IsBit (set_checks hl hc n j)
set_checks-IsBit hl zero j hc h = h
set_checks-IsBit hl (suc n) j hc h =
    set_check-IsBit hl n j (set_checks hl hc n) (set_checks-IsBit hl n j hc h)

set_checks-IsBit_at : (hl n k : ℕ) (hc : ℕ → ℕ) → k < n → IsBit (set_checks hl hc n (2 ^ k - 1))
set_checks-IsBit_at hl zero k hc lt = absurd (omega arith)
set_checks-IsBit_at hl (suc n) k hc lt = elim (Bool-cases (k == n)) [
  | inl same ↦ let e : k ≡ n = ground arith in ground (arith, ap (λ i. 2 ^ i) e)
  | inr other ↦
      set_check-IsBit hl n (2 ^ k - 1) (set_checks hl hc n)
        (set_checks-IsBit_at hl n k hc (ground arith))
]

-- The facts about the length of a code word for b, and its number of check bits.
pub record Frame (b : List ℕ) (hl r : ℕ) : Type 0 where
  pub length_of : hl ≡ length b + r
  pub inside : (k : ℕ) → k < r → 2 ^ k ≤ hl
  pub outside : hl < 2 ^ r
  pub taken : (fill b hl).1 ≤ length b

length_more : (l : ℕ) → l ≤ hamming_length l
unfolding hamming_length
length_more l = omega arith

powers_below : (n r k : ℕ) → ((i : ℕ) → i < r → 2 ^ i ≤ n) → n < 2 ^ k → r ≤ k
powers_below n zero k inside above = omega arith
powers_below n (suc r) k inside above =
    omega (arith, lt_of-pow r k (omega (arith, inside r (omega arith), above)))

pub code-Frame :
    (b : List ℕ) → Frame b (hamming_length (length b)) (hamming_length (length b) - length b)
code-Frame b =
    let hl = hamming_length (length b) in
    let r = hl - length b in
    let m = length-IsLeast (length b) in
    let longer = length_more (length b) in
    let inside : (k : ℕ) → k < r → 2 ^ k ≤ hl = λ k lt. omega (arith, m.least k lt, longer, lt) in
    let (k, s) = spans hl in
    record {
      length_of = omega (arith, longer);
      inside = inside;
      outside = omega (arith, m.enough, longer);
      taken = omega (arith, fill_taken b hl, s.counted, powers_below hl r k inside s.above, longer);
    }

pub code-IsBit :
    (b : List ℕ) (hl r j : ℕ)
    → Frame b hl r
    → All IsBit b
    → j < hl
    → IsBit (set_checks hl (fill b hl).0 r j)
code-IsBit b hl r j frame h lt = elim (Bool-cases (is_check j)) [
  | inl power ↦
      let (k, e) = pow_of-is_check j power in
      let kr : k < r = lt_of-pow k r (omega (arith, frame.outside, e)) in
      let f : 2 ^ k - 1 ≡ j = omega (arith, e) in
      rw f at (set_checks-IsBit_at hl r k (fill b hl).0 kr)
  | inr plain ↦ set_checks-IsBit hl r j (fill b hl).0 (fill-IsBit b hl j h frame.taken lt plain)
]

pub start-AreSet : (b : List ℕ) (hl r : ℕ) → AreSet hl r 0 (fill b hl).0
start-AreSet b hl r = record {
  even = λ k lt. absurd (omega arith);
  unset = λ k h h'.
      let power = is_check-pow (2 ^ k - 1) k (omega (arith, one-le-pow k 2)) in
      ground (arith, fill-check b hl (2 ^ k - 1) power);
}

-- ===== src/Hamming/Syndrome.antt =====
-- The sum over the check positions that a position meets is that position.
use cn_lab.Base.{
  ℕ, zero, suc, ◌+◌, ◌*◌, ◌^◌, ◌≤◌, ◌<◌, ◌≡◌, ◌≢◌, refl, ap, ◌∙◌, true, false, ◌&&◌, if◌then◌else◌,
  Bool-cases, inl, inr, arith,
}
use cn_lab.Base.Bits.{
  bit_of, low_bits, low_bits-suc, low_bits_all, bit_of-cases, bit_and-pow, bit_and-before,
  power_of-bit_and, lt_of-pow,
}
use cn_lab.Hamming.{is_check, meets}
use native.Mathlib.Nat.{pow-suc}

abbrev pub met_checks : ℕ → ℕ → ℕ
met_checks q zero = 0
met_checks q (suc n) = met_checks q n + (if is_check n && meets q (suc n) then suc n else 0)

abbrev pub checks : ℕ → ℕ
checks zero = 0
checks (suc n) = checks n + (if is_check n then 1 else 0)

-- 2 ^ k is the least power of two above n, so that k of the numbers up to n are powers of two.
pub record Spans (n k : ℕ) : Type 0 where
  pub above : n < 2 ^ k
  pub near : 2 ^ k ≤ 2 * n + 1
  pub counted : checks n ≡ k
  pub met : (q : ℕ) → met_checks q n ≡ low_bits k q

pub is_check-pow : (n k : ℕ) → suc n ≡ 2 ^ k → is_check n ≡ true
is_check-pow n k e = ground (arith, bit_and-before n k e)

pub pow_of-is_check : (n : ℕ) → is_check n ≡ true → (k : ℕ) × (suc n ≡ 2 ^ k)
pow_of-is_check n h = power_of-bit_and n (ground arith)

-- What a check position adds.
met_pow : (q n k : ℕ) → suc n ≡ 2 ^ k → (if meets q (suc n) then suc n else 0) ≡ bit_of k q
met_pow q n k e = elim (bit_of-cases k q) [
  | inl none_met ↦ ground (arith, bit_and-pow q k, none_met, e)
  | inr met ↦ ground (arith, bit_and-pow q k, met, e)
]

-- The check position behind n is the next power of two.
next_power : (n k : ℕ) → Spans n k → is_check n ≡ true → suc n ≡ 2 ^ k
next_power n k s power =
    let (j, e) = pow_of-is_check n power in
    let upper : j < suc k = lt_of-pow j (suc k) (omega (arith, s.above, e, pow-suc 2 k)) in
    let lower : k < suc j = lt_of-pow k (suc j) (omega (arith, s.near, e, pow-suc 2 j)) in
    let same : j ≡ k = omega (arith, upper, lower) in e ∙ ap (λ i. 2 ^ i) same

Spans-check : (n k : ℕ) → Spans n k → is_check n ≡ true → Spans (suc n) (suc k)
Spans-check n k s power =
    let e = next_power n k s power in
    record {
      above = omega (arith, e, pow-suc 2 k);
      near = omega (arith, e, pow-suc 2 k);
      counted = rw power (omega (arith, s.counted));
      met = λ q. rw power (omega (arith, s.met q, met_pow q n k e, low_bits-suc k q));
    }

Spans-other : (n k : ℕ) → Spans n k → is_check n ≡ false → Spans (suc n) k
Spans-other n k s other =
    let ne : suc n ≢ 2 ^ k = λ e. cc (is_check-pow n k e, other) in
    record {
      above = omega (arith, s.above, ne);
      near = omega (arith, s.near);
      counted = rw other (omega (arith, s.counted));
      met = λ q. rw other (omega (arith, s.met q));
    }

pub spans : (n : ℕ) → (k : ℕ) × Spans n k
spans zero =
    (0, record { above = omega arith; near = omega arith; counted = refl; met = λ q. refl })
spans (suc n) =
    let (k, s) = spans n in
    elim (Bool-cases (is_check n)) [
      | inl power ↦ (suc k, Spans-check n k s power)
      | inr other ↦ (k, Spans-other n k s other)
    ]

-- Adding up the check positions that a position meets gives the position.
pub met_checks_lem : (n q : ℕ) → q ≤ n → met_checks q n ≡ q
met_checks_lem n q h =
    let (k, s) = spans n in s.met q ∙ low_bits_all k q (omega (arith, s.above, h))

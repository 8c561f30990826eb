-- ===== src/Hamming/Parity.antt =====
-- The check bits make the ones at the positions that each of them covers even in number.
use cn_lab.Base.{
  ℕ, zero, suc, ◌+◌, ◌-◌, ◌/◌, ◌%◌, ◌^◌, ◌≤◌, ◌<◌, ◌≡◌, ◌≢◌, refl, ap, sym, true, false, ◌&&◌, ◌==◌,
  if◌then◌else◌, Bool-cases, inl, inr, arith,
}
use cn_lab.Base.Bits.{bit_of, bit_of-zero, bit_and-pow, lt_of-pow}
use cn_lab.Hamming.{meets, put, one_count, set_check, set_checks}
use native.Mathlib.Nat.{pow-suc, one-le-pow}

-- What a byte at index i adds to the count.
abbrev one_at : ℕ → ℕ → ℕ → ℕ
one_at check i c = if meets (suc i) check && (c == b'1') then 1 else 0

-- An index behind the part that is counted does not matter.
one_count-put_behind :
    (check i c n : ℕ) (hc : ℕ → ℕ) → n ≤ i → one_count check (put i c hc) n ≡ one_count check hc n
one_count-put_behind check i c zero hc h = refl
one_count-put_behind check i c (suc n) hc h =
    let other : (n == i) ≡ false = ground arith in
    rw (other, one_count-put_behind check i c n hc (omega arith)) refl

pub one_count-put :
    (check i c n : ℕ) (hc : ℕ → ℕ)
    → i < n
    → one_count check (put i c hc) n + one_at check i (hc i)
      ≡ one_count check hc n + one_at check i c
one_count-put check i c zero hc h = absurd (omega arith)
one_count-put check i c (suc n) hc h = elim (Bool-cases (n == i)) [
  | inl same ↦
      let e : n ≡ i = ground arith in
      let self : (i == i) ≡ true = ground arith in
      let behind = one_count-put_behind check i c i hc (omega arith) in
      rw (e, self, behind) (omega arith)
  | inr other ↦ let ih = one_count-put check i c n hc (ground arith) in rw other (omega (arith, ih))
]

-- Different powers of two have no bit in common.
bit_of-pow : (k j : ℕ) → k ≢ j → bit_of k (2 ^ j) ≡ 0
bit_of-pow zero zero ne = absurd (ne refl)
bit_of-pow zero (suc j) ne = omega (arith, pow-suc 2 j)
bit_of-pow (suc k) zero ne = omega (arith, bit_of-zero k)
bit_of-pow (suc k) (suc j) ne =
    let half : 2 ^ suc j / 2 ≡ 2 ^ j = omega (arith, pow-suc 2 j) in
    rw half (omega (arith, bit_of-pow k j (λ e. ne (ap suc e))))

bit_of_own : (k : ℕ) → bit_of k (2 ^ k) ≡ 2 ^ k
bit_of_own zero = refl
bit_of_own (suc k) =
    let half : 2 ^ suc k / 2 ≡ 2 ^ k = omega (arith, pow-suc 2 k) in
    rw half (omega (arith, bit_of_own k, pow-suc 2 k))

pow_meets_itself : (k : ℕ) → meets (2 ^ k) (2 ^ k) ≡ true
pow_meets_itself k = ground (arith, bit_and-pow (2 ^ k) k, bit_of_own k, one-le-pow k 2)

meets_pow : (j k : ℕ) → j ≢ k → meets (2 ^ j) (2 ^ k) ≡ false
meets_pow j k ne = ground (arith, bit_and-pow (2 ^ j) k, bit_of-pow k j (λ e. ne (sym e)))

suc_pred : (k : ℕ) → suc (2 ^ k - 1) ≡ 2 ^ k
suc_pred k = omega (arith, one-le-pow k 2)

pow_injective : (j k : ℕ) → 2 ^ j ≡ 2 ^ k → j ≡ k
pow_injective j k e =
    let a : j < suc k = lt_of-pow j (suc k) (omega (arith, e, pow-suc 2 k, one-le-pow k 2)) in
    let b : k < suc j = lt_of-pow k (suc j) (omega (arith, e, pow-suc 2 j, one-le-pow j 2)) in
    omega (arith, a, b)

abbrev pub IsEven : ℕ → (ℕ → ℕ) → ℕ → Type 0
IsEven hl hc k = one_count (2 ^ k) hc hl % 2 ≡ 0

-- Setting check bit k makes the count even.
set_check-IsEven :
    (hl : ℕ) (hc : ℕ → ℕ) (k : ℕ)
    → 2 ^ k ≤ hl
    → hc (2 ^ k - 1) ≢ b'1'
    → IsEven hl (set_check hl hc k) k
set_check-IsEven hl hc k le ne =
    let c : ℕ = if one_count (2 ^ k) hc hl % 2 == 1 then b'1' else b'0' in
    let inside : 2 ^ k - 1 < hl = omega (arith, le, one-le-pow k 2) in
    let counted : one_count (2 ^ k) (set_check hl hc k) hl
          + (if hc (2 ^ k - 1) == b'1' then 1 else 0)
        ≡ one_count (2 ^ k) hc hl + (if c == b'1' then 1 else 0) =
      rw (suc_pred k, pow_meets_itself k) at (one_count-put (2 ^ k) (2 ^ k - 1) c hl hc inside) in
    ground (arith, counted, ne)

-- Setting another check bit leaves the count as it is.
set_check-others :
    (hl : ℕ) (hc : ℕ → ℕ) (j k : ℕ)
    → 2 ^ j ≤ hl
    → j ≢ k
    → one_count (2 ^ k) (set_check hl hc j) hl ≡ one_count (2 ^ k) hc hl
set_check-others hl hc j k le ne =
    let c : ℕ = if one_count (2 ^ j) hc hl % 2 == 1 then b'1' else b'0' in
    let inside : 2 ^ j - 1 < hl = omega (arith, le, one-le-pow j 2) in
    let counted : one_count (2 ^ k) (set_check hl hc j) hl + 0 ≡ one_count (2 ^ k) hc hl + 0 =
      rw (suc_pred j, meets_pow j k ne) at (one_count-put (2 ^ k) (2 ^ j - 1) c hl hc inside) in
    omega (arith, counted)

apart_pow : (j k : ℕ) → j ≢ k → (2 ^ j - 1 == 2 ^ k - 1) ≡ false
apart_pow j k ne =
    let powers : 2 ^ j ≢ 2 ^ k = λ e. ne (pow_injective j k e) in
    ground (arith, powers, one-le-pow j 2, one-le-pow k 2)

-- What holds after n rounds: the first n check bits are set, the others are not '1'.
pub record AreSet (hl r n : ℕ) (hc : ℕ → ℕ) : Type 0 where
  pub even : (k : ℕ) → k < n → IsEven hl hc k
  pub unset : (k : ℕ) → n ≤ k → k < r → hc (2 ^ k - 1) ≢ b'1'

set_check-AreSet :
    (hl r n : ℕ) (hc : ℕ → ℕ)
    → n < r
    → 2 ^ n ≤ hl
    → AreSet hl r n hc
    → AreSet hl r (suc n) (set_check hl hc n)
set_check-AreSet hl r n hc lt le i = record {
  even = λ k h. elim (Bool-cases (k == n)) [
    | inl same ↦
        let e : k ≡ n = ground arith in
        rw e (set_check-IsEven hl hc n le (i.unset n (omega arith) lt))
    | inr other ↦ rw (set_check-others hl hc n k le (ground arith)) (i.even k (ground arith))
  ];
  unset = λ k h h'.
      let apart : (2 ^ k - 1 == 2 ^ n - 1) ≡ false = apart_pow k n (omega arith) in
      rw apart (i.unset k (omega arith) h');
}

pub set_checks-AreSet :
    (hl r n : ℕ) (hc : ℕ → ℕ)
    → n ≤ r
    → ((k : ℕ) → k < r → 2 ^ k ≤ hl)
    → AreSet hl r 0 hc
    → AreSet hl r n (set_checks hl hc n)
set_checks-AreSet hl r zero hc h le i = i
set_checks-AreSet hl r (suc n) hc h le i =
    set_check-AreSet hl r n (set_checks hl hc n) (omega arith) (le n (omega arith))
      (set_checks-AreSet hl r n hc (omega arith) le i)

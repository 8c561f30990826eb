-- ===== src/Hamming/Length.antt =====
-- The number of check bits: the least one that is large enough.
use cn_lab.Base.{
  ℕ, zero, suc, ◌+◌, ◌-◌, ◌*◌, ◌==◌, ◌^◌, ◌≤◌, ◌<◌, ◌≡◌, ap, ltb, ltb→lt, Bool-cases, inl, inr,
  true, arith,
}
use cn_lab.Hamming.{redundant, hamming_length}
use native.Mathlib.Nat.{pow-suc}

-- r check bits are enough for l bits, and no smaller number is.
pub record IsLeast (l r : ℕ) : Type 0 where
  pub enough : l + r + 1 ≤ 2 ^ r
  pub least : (i : ℕ) → i < r → 2 ^ i ≤ l + i

double : (l : ℕ) → 2 * l + 2 ≤ 2 ^ suc l
double zero = omega arith
double (suc l) = omega (arith, double l, pow-suc 2 (suc l))

-- The loop ends at r = l + 1 at the latest.
not_double : (l r : ℕ) → r ≤ l + 1 → ltb (2 ^ r) (l + r + 1) ≡ true → r < l + 1
not_double l r h more = elim (Bool-cases (r == suc l)) [
  | inl same ↦
      let e : r ≡ suc l = ground arith in
      absurd (omega (arith, double l, ltb→lt (2 ^ r) (l + r + 1) more, ap (λ n. 2 ^ n) e, e))
  | inr other ↦ ground arith
]

at_most :
    (l r i : ℕ)
    → ltb (2 ^ r) (l + r + 1) ≡ true
    → i < suc r
    → ((j : ℕ) → j < r → 2 ^ j ≤ l + j)
    → 2 ^ i ≤ l + i
at_most l r i more lt least = elim (Bool-cases (i == r)) [
  | inl same ↦
      let e : i ≡ r = ground arith in
      omega (arith, ltb→lt (2 ^ r) (l + r + 1) more, ap (λ n. 2 ^ n) e, e)
  | inr other ↦ least i (ground arith)
]

redundant-IsLeast :
    (fuel l r : ℕ)
    → l + 1 ≤ fuel + r
    → r ≤ l + 1
    → ((i : ℕ) → i < r → 2 ^ i ≤ l + i)
    → IsLeast l (redundant fuel l r)
unfolding redundant
redundant-IsLeast zero l r h below least =
    let e : r ≡ suc l = omega arith in
    record { enough = omega (arith, double l, ap (λ n. 2 ^ n) e, e); least = least }
redundant-IsLeast (suc fuel) l r h below least = elim (Bool-cases (ltb (2 ^ r) (l + r + 1))) [
  | inl more ↦
      let small : r < l + 1 = not_double l r below more in
      rw more (
        redundant-IsLeast fuel l (suc r) (omega arith) (omega arith)
          (λ i lt. at_most l r i more lt least))
  | inr last ↦ rw last (record { enough = ground arith; least = least })
]

pub length-IsLeast : (l : ℕ) → IsLeast l (hamming_length l - l)
unfolding hamming_length
length-IsLeast l =
    let e : l + redundant (suc l) l 0 - l ≡ redundant (suc l) l 0 = omega arith in
    rw e (redundant-IsLeast (suc l) l 0 (omega arith) (omega arith) (λ i lt. absurd (omega arith)))

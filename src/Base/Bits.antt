-- ===== src/Base/Bits.antt =====
-- C's & on single bits: with a power of two, and of a number with the one before it.
use Prim.Native.Nat.{
  ℕ, zero, suc, ◌+◌, ◌*◌, ◌/◌, ◌%◌, ◌^◌, ◌≤◌, ◌<◌, min, digits, bit_and, bit_and-bitwise,
}
use mathlib.Core.Path.{◌≡◌, refl, sym, ◌∙◌}
use mathlib.Core.Logic.{◌⊎◌, inl, inr}
use cn_lab.Base.Tests.{◌==◌, Bool-cases}
use native.Mathlib.Omega.{arith}
use native.Mathlib.Nat.{pow-suc, one-le-pow}

-- The number that has bit k of a only, and the one that has the lowest k bits.
abbrev pub bit_of : ℕ → ℕ → ℕ
bit_of zero a = a % 2
bit_of (suc k) a = bit_of k (a / 2) * 2

abbrev pub low_bits : ℕ → ℕ → ℕ
low_bits zero a = 0
low_bits (suc k) a = low_bits k (a / 2) * 2 + a % 2

pub low_bits-suc : (k a : ℕ) → low_bits (suc k) a ≡ low_bits k a + bit_of k a
low_bits-suc zero a = omega arith
low_bits-suc (suc k) a = omega (arith, low_bits-suc k (a / 2))

pub low_bits_all : (k a : ℕ) → a < 2 ^ k → low_bits k a ≡ a
low_bits_all zero a h = omega arith
low_bits_all (suc k) a h = omega (arith, low_bits_all k (a / 2) (omega (arith, pow-suc 2 k)))

pub bit_of-cases : (k a : ℕ) → (bit_of k a ≡ 0) ⊎ (bit_of k a ≡ 2 ^ k)
bit_of-cases zero a = omega arith
bit_of-cases (suc k) a = elim (bit_of-cases k (a / 2)) [
  | inl e ↦ inl (omega (arith, e))
  | inr e ↦ inr (omega (arith, e, pow-suc 2 k))
]

-- The digits of & while at most n of them are left.
abbrev masked : ℕ → ℕ → ℕ → ℕ
masked n a b = digits (λ c. 0) min n a b

masked-zero : (n a : ℕ) → masked n a 0 ≡ 0
masked-zero zero a = refl
masked-zero (suc n) zero = refl
masked-zero (suc n) (suc a) = omega (arith, masked-zero n (suc a / 2))

pub bit_of-zero : (k : ℕ) → bit_of k 0 ≡ 0
bit_of-zero zero = refl
bit_of-zero (suc k) = omega (arith, bit_of-zero k)

masked-pow : (n a k : ℕ) → a ≤ n → masked n a (2 ^ k) ≡ bit_of k a
masked-pow zero zero k h = sym (bit_of-zero k)
masked-pow zero (suc a) k h = absurd (omega arith)
masked-pow (suc n) zero k h = sym (bit_of-zero k)
masked-pow (suc n) (suc a) zero h = omega (arith, masked-zero n (suc a / 2))
masked-pow (suc n) (suc a) (suc k) h =
    let half : 2 ^ suc k / 2 ≡ 2 ^ k = omega (arith, pow-suc 2 k) in
    let even : 2 ^ suc k % 2 ≡ 0 = omega (arith, pow-suc 2 k) in
    rw (half, even) (omega (arith, masked-pow n (suc a / 2) k (omega arith)))

pub bit_and-pow : (a k : ℕ) → bit_and a (2 ^ k) ≡ bit_of k a
bit_and-pow a k = bit_and-bitwise a (2 ^ k) ∙ masked-pow a a k (omega arith)

masked_self : (n a : ℕ) → a ≤ n → masked n a a ≡ a
masked_self zero a h = omega arith
masked_self (suc n) zero h = refl
masked_self (suc n) (suc a) h = omega (arith, masked_self n (suc a / 2) (omega arith))

masked-before : (n p k : ℕ) → suc p ≤ n → suc p ≡ 2 ^ k → masked n (suc p) p ≡ 0
masked-before zero p k h e = absurd (omega arith)
masked-before (suc n) zero zero h e = omega (arith, masked-zero n 0)
masked-before (suc n) (suc p) zero h e = absurd (omega arith)
masked-before (suc n) p (suc k) h e =
    let half : suc p / 2 ≡ suc (p / 2) = omega (arith, e, pow-suc 2 k) in
    rw half (
      omega (
        arith,
        masked-before n (p / 2) k (omega arith) (omega (arith, e, pow-suc 2 k)),
        e,
        pow-suc 2 k,
      ))

power_of-masked : (n p : ℕ) → suc p ≤ n → masked n (suc p) p ≡ 0 → (k : ℕ) × (suc p ≡ 2 ^ k)
power_of-masked zero p h e = absurd (omega arith)
power_of-masked (suc n) p h e = elim (Bool-cases (suc p % 2 == 0)) [
  | inl even ↦
      let half : suc p / 2 ≡ suc (p / 2) = ground arith in
      let lower : masked n (suc (p / 2)) (p / 2) ≡ 0 = omega (arith, (rw half at e)) in
      let (k, f) = power_of-masked n (p / 2) (omega arith) lower in
      (suc k, ground (arith, f, pow-suc 2 k))
  | inr odd ↦
      let half : suc p / 2 ≡ p / 2 = ground arith in
      let same : masked n (p / 2) (p / 2) ≡ 0 = omega (arith, (rw half at e)) in
      (0, ground (arith, same, masked_self n (p / 2) (omega arith)))
]

-- A number and the one before it have no bit in common just when it is a power of two.
pub bit_and-before : (p k : ℕ) → suc p ≡ 2 ^ k → bit_and (suc p) p ≡ 0
bit_and-before p k e = bit_and-bitwise (suc p) p ∙ masked-before (suc p) p k (omega arith) e

pub power_of-bit_and : (p : ℕ) → bit_and (suc p) p ≡ 0 → (k : ℕ) × (suc p ≡ 2 ^ k)
power_of-bit_and p e = power_of-masked (suc p) p (omega arith) (sym (bit_and-bitwise (suc p) p) ∙ e)

pub lt_of-pow : (a b : ℕ) → 2 ^ a < 2 ^ b → a < b
lt_of-pow a zero h = absurd (omega (arith, one-le-pow a 2))
lt_of-pow zero (suc b) h = omega arith
lt_of-pow (suc a) (suc b) h = omega (arith, lt_of-pow a b (omega (arith, pow-suc 2 a, pow-suc 2 b)))

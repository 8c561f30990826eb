-- ===== src/Driver/CelFar/Convert.antt =====
-- The driver's two conversions where no int overflows, and its atoi.
use cn_lab.Base.{
  ℕ, zero, suc, ◌+◌, ◌*◌, ◌/◌, ◌%◌, ◌≤◌, ◌≡◌, refl, ap, ◌∙◌, List, [], ◌∷◌, ◌++◌, false, inl, inr,
  arith, ltb, ◌==◌, Bool-cases,
}
use cn_lab.Base.Int.{ℤ, pos, negsuc, abs, ◌+ℤ◌, ◌-ℤ◌, ◌*ℤ◌, ◌/ℤ◌}
use cn_lab.Base.Words.{int32_small}
use cn_lab.Base.Decimal.{write_digits, decimal, decimal-head, write_digits-append, print_int}
use cn_lab.Driver.CelFar.{scan, atoi, c_to_f, f_to_c}

-- 2 ^ 31 - 1
abbrev pub int_max : ℕ
int_max = 2147483647

pub nine_small : (a : ℤ) → abs (a *ℤ pos 9) ≤ int_max → abs a ≤ int_max
unfolding ◌*ℤ◌
nine_small (pos n) h = ground arith
nine_small (negsuc n) h = ground arith

five_small : (a : ℤ) → abs (a *ℤ pos 5) ≤ int_max → abs a ≤ int_max
unfolding ◌*ℤ◌
five_small (pos n) h = ground arith
five_small (negsuc n) h = ground arith

pub shifted_small : (a : ℤ) → abs ((a -ℤ pos 32) *ℤ pos 5) ≤ int_max → abs a ≤ int_max
unfolding ◌*ℤ◌ ◌-ℤ◌
shifted_small (pos n) h = ground arith
shifted_small (negsuc n) h = ground arith

pub fifth_small : (a : ℤ) → abs a ≤ int_max → abs (a /ℤ 5 +ℤ pos 32) ≤ int_max
unfolding ◌+ℤ◌ ◌/ℤ◌
fifth_small (pos n) h = ground arith
fifth_small (negsuc n) h = ground arith

pub ninth_small : (a : ℤ) → abs a ≤ int_max → abs (a /ℤ 9) ≤ int_max
unfolding ◌/ℤ◌
ninth_small (pos n) h = ground arith
ninth_small (negsuc n) h = ground arith

-- Where temp * 9 is an int, C_to_F computes temp * 9 / 5 + 32.
pub c_to_f_exact :
    (temp : ℤ) → abs (temp *ℤ pos 9) ≤ int_max → c_to_f temp ≡ temp *ℤ pos 9 /ℤ 5 +ℤ pos 32
unfolding c_to_f
c_to_f_exact temp h =
    rw (int32_small (temp *ℤ pos 9) h)
      (int32_small (temp *ℤ pos 9 /ℤ 5 +ℤ pos 32) (fifth_small (temp *ℤ pos 9) h))

-- Where (temp - 32) * 5 is an int, F_to_C computes (temp - 32) * 5 / 9.
pub f_to_c_exact :
    (temp : ℤ)
    → abs ((temp -ℤ pos 32) *ℤ pos 5) ≤ int_max
    → f_to_c temp ≡ (temp -ℤ pos 32) *ℤ pos 5 /ℤ 9
unfolding f_to_c
f_to_c_exact temp h =
    rw
      (
        int32_small (temp -ℤ pos 32) (five_small (temp -ℤ pos 32) h),
        int32_small ((temp -ℤ pos 32) *ℤ pos 5) h,
      )
      (int32_small ((temp -ℤ pos 32) *ℤ pos 5 /ℤ 9) (ninth_small ((temp -ℤ pos 32) *ℤ pos 5) h))

next_digit : (r d : ℕ) → pos r *ℤ pos 10 +ℤ pos (b'0' + d) -ℤ pos b'0' ≡ pos (r * 10 + d)
unfolding ◌+ℤ◌ ◌-ℤ◌ ◌*ℤ◌
next_digit r d = ground arith

pub scan_digit :
    (r d : ℕ) (s : List ℕ)
    → r * 10 + d ≤ int_max
    → scan (pos r) ((b'0' + d) ∷ s) ≡ scan (pos (r * 10 + d)) s
unfolding scan
scan_digit r d s h =
    let digit : ((b'0' + d) == 0) ≡ false = ground arith in
    rw (digit, next_digit r d, int32_small (pos (r * 10 + d)) h)

scan-write_digits :
    (f n : ℕ) (out : List ℕ)
    → n ≤ f
    → n ≤ int_max
    → scan (pos 0) (write_digits f n out) ≡ scan (pos n) out
unfolding write_digits
scan-write_digits zero n out h small =
    scan_digit 0 (n % 10) out (omega arith) ∙ ap (λ (k : ℕ). scan (pos k) out) (omega arith)
scan-write_digits (suc f) n out h small = elim (Bool-cases (ltb n 10)) [
  | inl one ↦
      rw one (scan_digit 0 n out (omega arith) ∙ ap (λ (k : ℕ). scan (pos k) out) (omega arith))
  | inr more ↦ rw more (
      scan-write_digits f (n / 10) ((b'0' + n % 10) ∷ out) (ground arith) (omega arith)
      ∙ scan_digit (n / 10) (n % 10) out (omega arith)
      ∙ ap (λ (k : ℕ). scan (pos k) out) (omega arith))
]

pub scan-decimal_append :
    (n : ℕ) (rest : List ℕ) → n ≤ int_max → scan (pos 0) (decimal n ++ rest) ≡ scan (pos n) rest
unfolding decimal
scan-decimal_append n rest small =
    ap (scan (pos 0)) (write_digits-append n n [] rest)
    ∙ scan-write_digits n n rest (omega arith) small

pub scan-decimal :
    (n : ℕ) (junk : List ℕ) → n ≤ int_max → scan (pos 0) (decimal n ++ 0 ∷ junk) ≡ pos n
scan-decimal n junk small = scan-decimal_append n (0 ∷ junk) small ∙ (unfold scan in refl)

negsuc_one : (n : ℕ) → negsuc 0 *ℤ pos (suc n) ≡ negsuc n
unfolding ◌*ℤ◌
negsuc_one n = ground arith

-- The driver's atoi reads an int back from its print with %d, whatever follows the NUL.
pub atoi-print_int : (a : ℤ) (junk : List ℕ) → abs a ≤ int_max → atoi (print_int a ++ 0 ∷ junk) ≡ a
unfolding atoi print_int
atoi-print_int (pos n) junk small =
    let (c, s, e, digit) = decimal-head n in
    let unsigned : (c == b'-') ≡ false = ground arith in
    rw (e, unsigned) (rw e at (scan-decimal n junk small))
atoi-print_int (negsuc n) junk small =
    rw (scan-decimal (suc n) junk small, negsuc_one n) (int32_small (negsuc n) small)

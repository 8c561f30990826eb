-- ===== src/Base/Decimal.antt =====
-- Decimal numbers as text: what sprintf's %d writes for a number that is not negative, and what the
-- C library's atoi reads from a text with no blank or sign in front.
use cn_lab.Base.Tests.{ltb, leb, ◌==◌, if◌then◌else◌, Bool-cases}
use cn_lab.Base.Lists.{length}
use cn_lab.Base.Int.{ℤ, pos, negsuc, neg}
use mathlib.Core.Logic.{inl, inr}
use Prim.Native.Nat.{ℕ, zero, suc, ◌+◌, ◌-◌, ◌*◌, ◌/◌, ◌%◌, ◌^◌, ◌≤◌, ◌<◌}
use mathlib.Core.Bool.{Bool, true, false, ◌&&◌}
use mathlib.Core.List.{List, [], ◌∷◌, ◌++◌}
use mathlib.Core.Path.{◌≡◌, refl, ap, ◌∙◌}
use native.Mathlib.Omega.{arith}
use native.Mathlib.Nat.{pow-suc}

-- The digits of n in front of a text, the last digit first; n rounds are enough.
unfoldable pub write_digits : ℕ → ℕ → List ℕ → List ℕ
write_digits zero n out = (b'0' + n % 10) ∷ out
write_digits (suc f) n out =
    let more = write_digits f (n / 10) ((b'0' + n % 10) ∷ out) in
    if ltb n 10 then (b'0' + n) ∷ out else more

unfoldable pub decimal : ℕ → List ℕ
unfolding write_digits
decimal n = write_digits n n []

abbrev pub is_digit : ℕ → Bool
is_digit c = leb b'0' c && leb c b'9'

-- Up to the first byte that is no digit, such as the NUL.
unfoldable pub read_digits : ℕ → List ℕ → ℕ
read_digits n [] = n
read_digits n (c ∷ s) =
    let rest = read_digits (n * 10 + (c - b'0')) s in if is_digit c then rest else n

unfoldable pub atoi : List ℕ → ℕ
unfolding read_digits
atoi s = read_digits 0 s

read-write_digits :
    (f n : ℕ) (out : List ℕ) → n ≤ f → read_digits 0 (write_digits f n out) ≡ read_digits n out
unfolding write_digits read_digits
read-write_digits zero n out h = ground arith
read-write_digits (suc f) n out h =
    ground (arith, read-write_digits f (n / 10) ((b'0' + n % 10) ∷ out) (omega arith))

pub write_digits-append :
    (f n : ℕ) (out rest : List ℕ) → write_digits f n out ++ rest ≡ write_digits f n (out ++ rest)
unfolding write_digits
write_digits-append zero n out rest = refl
write_digits-append (suc f) n out rest =
    ground (arith, write_digits-append f (n / 10) ((b'0' + n % 10) ∷ out) rest)

-- A number is read back from its print, whatever follows the NUL.
pub atoi-decimal : (n : ℕ) (junk : List ℕ) → atoi (decimal n ++ 0 ∷ junk) ≡ n
unfolding atoi decimal
atoi-decimal n junk =
    ap (read_digits 0) (write_digits-append n n [] (0 ∷ junk))
    ∙ read-write_digits n n (0 ∷ junk) (omega arith)
    ∙ (unfold read_digits in refl)

pub atoi-decimal_end : (n : ℕ) → atoi (decimal n) ≡ n
unfolding atoi decimal
atoi-decimal_end n = read-write_digits n n [] (omega arith) ∙ (unfold read_digits in refl)

-- sprintf's %d and atoi with a sign.
unfoldable pub print_int : ℤ → List ℕ
print_int (pos n) = decimal n
print_int (negsuc n) = b'-' ∷ decimal (suc n)

unfoldable pub atoi_int : List ℕ → ℤ
atoi_int [] = pos 0
atoi_int (c ∷ s) = if c == b'-' then neg (pos (atoi s)) else pos (atoi (c ∷ s))

-- The first byte of a printed number is a digit.
write_digits-head :
    (f n : ℕ) (out : List ℕ)
    → (c : ℕ) × (s : List ℕ) × (write_digits f n out ≡ c ∷ s) × (is_digit c ≡ true)
unfolding write_digits
write_digits-head zero n out = (b'0' + n % 10, out, refl, ground arith)
write_digits-head (suc f) n out = elim (Bool-cases (ltb n 10)) [
  | inl small ↦ (b'0' + n, out, rw small, ground arith)
  | inr large ↦ rw large (write_digits-head f (n / 10) ((b'0' + n % 10) ∷ out))
]

pub decimal-head : (n : ℕ) → (c : ℕ) × (s : List ℕ) × (decimal n ≡ c ∷ s) × (is_digit c ≡ true)
unfolding decimal
decimal-head n = write_digits-head n n []

pub length-write_digits :
    (k f n : ℕ) (out : List ℕ) → n < 10 ^ suc k → length (write_digits f n out) ≤ suc k + length out
unfolding write_digits
length-write_digits k zero n out h = omega arith
length-write_digits zero (suc f) n out h =
    let small : ltb n 10 ≡ true = ground arith in rw small (omega arith)
length-write_digits (suc k) (suc f) n out h =
    let tenth : n / 10 < 10 ^ suc k = omega (arith, pow-suc 10 (suc k)) in
    ground (arith, length-write_digits k f (n / 10) ((b'0' + n % 10) ∷ out) tenth)

-- A signed number is read back from its print, whatever follows the NUL.
pub atoi_int-print_int : (a : ℤ) (junk : List ℕ) → atoi_int (print_int a ++ 0 ∷ junk) ≡ a
unfolding atoi_int print_int
atoi_int-print_int (pos n) junk =
    let (c, s, e, digit) = decimal-head n in
    let unsigned : (c == b'-') ≡ false = ground arith in
    rw (e, unsigned) (ap pos (rw e at (atoi-decimal n junk)))
atoi_int-print_int (negsuc n) junk = rw (atoi-decimal (suc n) junk) (ground arith)

forty_two : atoi (decimal 42 ++ 0 ∷ 57 ∷ []) ≡ 42
unfolding atoi decimal
forty_two = refl

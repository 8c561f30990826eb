-- ===== src/Driver/TickTock.antt =====
-- The clock device ticktock.c: reading gives the seconds of the system clock as text, writing sets
-- them. The buffer of `reverse` is a function from indices to bytes.
use cn_lab.Base.{
  ℕ, zero, suc, ◌+◌, ◌-◌, ◌*◌, ◌≤◌, ◌<◌, ◌≡◌, refl, ap, ◌∙◌, inl, inr, false, Option, none, some,
  List, [], ◌∷◌, ◌++◌, length, drop, drop-append, arith, ltb, ◌==◌, if◌then◌else◌, Bool-cases,
}
use cn_lab.Base.Int.{ℤ, pos}
use cn_lab.Base.Decimal.{decimal, print_int, length-write_digits}
use cn_lab.Base.Memory.{Memory}
use cn_lab.Driver.CelFar.{scan}
use cn_lab.Driver.CelFar.Convert.{int_max, scan-decimal_append, scan_digit}

-- The kernel's swap of two bytes.
unfoldable pub swap : ℕ → ℕ → Memory → Memory
swap p q m = λ i. if i == p then m q else if i == q then m p else m i

-- The loop of reverse, on fuel; `end` is length - 1, and an empty text runs no round either way.
unfoldable pub reverse_loop : ℕ → ℕ → ℕ → Memory → Memory
reverse_loop zero start end str = str
reverse_loop (suc f) start end str =
    let more = reverse_loop f (start + 1) (end - 1) (swap start end str) in
    if ltb start end then more else str

unfoldable pub reverse : Memory → ℕ → Memory
reverse str length = reverse_loop length 0 (length - 1) str

-- Where the byte at i comes from when the bytes from a to b are reversed.
abbrev pub mirrored : ℕ → ℕ → ℕ → ℕ
mirrored a b i = if ltb i a then i else if ltb b i then i else a + b - i

mirrored_short : (a b i : ℕ) → b ≤ a → i ≡ mirrored a b i
mirrored_short a b i h = ground arith

swap-mirrored :
    (a b : ℕ) (str : Memory) (i : ℕ)
    → a < b
    → swap a b str (mirrored (a + 1) (b - 1) i) ≡ str (mirrored a b i)
unfolding swap
swap-mirrored a b str i h = ground arith

reverse_loop_lem :
    (f a b : ℕ) (str : Memory) (i : ℕ)
    → b < a + f + f + 1
    → reverse_loop f a b str i ≡ str (mirrored a b i)
unfolding reverse_loop
reverse_loop_lem zero a b str i h = ap str (mirrored_short a b i (omega arith))
reverse_loop_lem (suc f) a b str i h = elim (Bool-cases (ltb a b)) [
  | inl more ↦ rw more (
      reverse_loop_lem f (a + 1) (b - 1) (swap a b str) i (ground arith)
      ∙ swap-mirrored a b str i (ground arith))
  | inr done ↦ rw done (ap str (mirrored_short a b i (ground arith)))
]

-- reverse turns the first `length` bytes round and leaves the others; its loop ends within `length`
-- rounds.
pub reverse_lem :
    (str : Memory) (length i : ℕ)
    → reverse str length i ≡ str (if ltb i length then length - 1 - i else i)
unfolding reverse
reverse_lem str length i =
    reverse_loop_lem length 0 (length - 1) str i (omega arith) ∙ ap str (reverse_index length i)
  where
    reverse_index : (n j : ℕ) → mirrored 0 (n - 1) j ≡ (if ltb j n then n - 1 - j else j)
    reverse_index n j = ground arith

-- atoi of ticktock.c: as in cel_far.c, but without a sign.
unfoldable pub atoi : List ℕ → ℤ
atoi str = scan (pos 0) str

-- struct timespec64 of the system clock.
pub record Clock : Type 0 where
  pub tv_sec : ℤ
  pub tv_nsec : ℕ

-- writetime: the user's bytes go to the front of 30 bytes of fresh memory, which hold anything; with
-- more of them copy_from_user writes past this memory (`none`).
unfoldable pub writetime : List ℕ → List ℕ → Clock → Option Clock
writetime user fresh c =
    if ltb 30 (length user)
    then none
    else some (record { tv_sec = atoi (user ++ drop (length user) fresh); tv_nsec = 0 })

-- readtime: the text that reaches the user.
unfoldable pub readtime : Clock → List ℕ
readtime c = print_int c.tv_sec

decimal-short : (n : ℕ) → n ≤ int_max → length (decimal n) ≤ 10
unfolding decimal
decimal-short n h = omega (arith, length-write_digits 9 n n [] (omega arith))

-- user_program.c writes no NUL: if the kernel's buffer then holds a digit and a NUL, the digit counts
-- as a last digit of the time.
pub writetime-unterminated :
    (n d : ℕ) (old fresh : List ℕ) (c : Clock)
    → n * 10 + d ≤ int_max
    → length old ≡ length (decimal n)
    → writetime (decimal n) (old ++ (b'0' + d) ∷ 0 ∷ fresh) c
      ≡ some (record { tv_sec = pos (n * 10 + d); tv_nsec = 0 })
unfolding writetime atoi
writetime-unterminated n d old fresh c small same =
    let fits : ltb 30 (length (decimal n)) ≡ false =
      ground (arith, decimal-short n (omega arith)) in
    let value : scan (pos 0) (decimal n ++ (b'0' + d) ∷ 0 ∷ fresh) ≡ pos (n * 10 + d) =
      scan-decimal_append n ((b'0' + d) ∷ 0 ∷ fresh) (omega arith)
      ∙ scan_digit n d (0 ∷ fresh) small
      ∙ (unfold scan in refl) in
    rw (fits, ← same, drop-append old ((b'0' + d) ∷ 0 ∷ fresh), value) refl

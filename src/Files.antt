-- ===== src/Files.antt =====
-- The file tools of directory 1: sort.c, below, merges two sorted files of numbers into a third one;
-- capital.c and separate.c are in Capital and Separate. A file is the list of its bytes that are
-- still to be read.
pub mod Capital
pub mod Merge
pub mod Separate
mod Samples
use cn_lab.Base.{
  ℕ, zero, suc, ◌+◌, Option, none, some, List, [], ◌∷◌, ◌++◌, Bool, true, false, ◌&&◌, ◌||◌, ◌==◌,
  ltb, leb, if◌then◌else◌, length,
}
use cn_lab.Base.Int.{ℤ, pos, ltb_ℤ}
use cn_lab.Base.Decimal.{is_digit, atoi, atoi_int, print_int}

-- The first loop of readint: c after it, and the rest of the file.
unfoldable pub skip_spaces : ℕ → List ℕ → ℕ × List ℕ
skip_spaces c [] = (c, [])
skip_spaces c (d ∷ file) = let more = skip_spaces d file in if d == 32 then more else (d, file)

-- The second loop: what goes into the buffer, and the rest behind the space.
unfoldable pub read_token : List ℕ → List ℕ × List ℕ
read_token [] = ([], [])
read_token (d ∷ file) =
    let (token, rest) = read_token file in if d == 32 then ([], file) else (d ∷ token, rest)

-- atoi of the C library: white space, a sign, digits.
unfoldable pub skip_white : List ℕ → List ℕ
skip_white [] = []
skip_white (c ∷ s) =
    let more = skip_white s in if (c == 32) || (leb 9 c && leb c 13) then more else c ∷ s

unfoldable pub signed : List ℕ → ℤ
signed [] = pos 0
signed (c ∷ s) = if c == b'+' then pos (atoi s) else atoi_int (c ∷ s)

-- What a call of readint leaves: -1, a number in *x and the rest of the file, or a write past buf.
pub data Reading : Type 0 where
  no_number overrun : Reading
  number : ℤ → List ℕ → Reading

unfoldable pub starts_number : ℕ → Bool
starts_number c = (c == b'-') || is_digit c

-- readint. `held` is what the uninitialised c holds at the call.
unfoldable pub finish_reading : List ℕ → List ℕ → Reading
finish_reading [] rest = Reading.no_number
finish_reading (c ∷ buf) rest =
    if ltb (length (c ∷ buf)) 10
    then Reading.number (signed (skip_white ((c ∷ buf) ++ 0 ∷ []))) rest
    else Reading.overrun

unfoldable pub readint : ℕ → List ℕ → Reading
readint held file =
    let (c, file') = skip_spaces held file in
    let (token, rest) = read_token file' in
    finish_reading (if starts_number c then c ∷ token else token) rest

-- sprintf(buf, "%d ", n) into ten bytes; `none` is a write past them.
unfoldable pub print_number : ℤ → Option (List ℕ)
print_number n = if ltb (length (print_int n) + 1) 10 then some (print_int n ++ 32 ∷ []) else none

unfoldable pub write : List ℕ → Option (List ℕ) → Option (List ℕ)
write out none = none
write out (some text) = some (out ++ text)

-- The loop of main, on what the last two calls of readint left and what f3.txt holds, at most `fuel`
-- times. The else branch with break is never taken.
unfoldable pub merge_loop : ℕ → ℕ → Reading → Reading → Option (List ℕ) → Option (List ℕ)
merge_loop zero held r1 r2 out = none
merge_loop (suc fuel) held r1 r2 none = none
merge_loop (suc fuel) held Reading.overrun r2 (some out) = none
merge_loop (suc fuel) held Reading.no_number Reading.overrun (some out) = none
merge_loop (suc fuel) held (Reading.number n1 f1) Reading.overrun (some out) = none
merge_loop (suc fuel) held Reading.no_number Reading.no_number (some out) = some (out ++ 10 ∷ [])
merge_loop (suc fuel) held (Reading.number n1 f1) Reading.no_number (some out) =
    merge_loop fuel held (readint held f1) Reading.no_number (write out (print_number n1))
merge_loop (suc fuel) held Reading.no_number (Reading.number n2 f2) (some out) =
    merge_loop fuel held Reading.no_number (readint held f2) (write out (print_number n2))
merge_loop (suc fuel) held (Reading.number n1 f1) (Reading.number n2 f2) (some out) =
    let first =
      merge_loop fuel held (readint held f1) (Reading.number n2 f2) (write out (print_number n1)) in
    let second =
      merge_loop fuel held (Reading.number n1 f1) (readint held f2) (write out (print_number n2)) in
    if ltb_ℤ n1 n2 then first else second

-- main, on the two files.
unfoldable pub merge_files : ℕ → ℕ → List ℕ → List ℕ → Option (List ℕ)
merge_files fuel held f1 f2 = merge_loop fuel held (readint held f1) (readint held f2) (some [])

-- ===== src/Driver/CelFar.antt =====
-- The temperature converter cel_far.c: a write of "1_<celsius>" or "2_<fahrenheit>" converts, a read
-- gives the result as text. The driver's ints wrap around.
pub mod Convert
pub mod Session
use cn_lab.Base.{
  ℕ, ◌+◌, ◌*◌, ◌≤◌, Option, none, some, List, [], ◌∷◌, ◌++◌, Bool, true, false, ltb, ◌==◌,
  if◌then◌else◌, length, drop, take, get_or,
}
use cn_lab.Base.Int.{ℤ, pos, negsuc, neg, ◌+ℤ◌, ◌-ℤ◌, ◌*ℤ◌, ◌/ℤ◌}
use cn_lab.Base.Decimal.{print_int}
use cn_lab.Base.Words.{int32}

-- The loop of atoi: every byte up to the NUL counts as a digit.
unfoldable pub scan : ℤ → List ℕ → ℤ
scan res [] = res
scan res (c ∷ s) =
    let rest = scan (int32 (res *ℤ pos 10 +ℤ pos c -ℤ pos b'0')) s in if c == 0 then res else rest

unfoldable pub atoi : List ℕ → ℤ
atoi [] = pos 0
atoi (c ∷ s) = if c == b'-' then int32 (negsuc 0 *ℤ scan (pos 0) s) else scan (pos 0) (c ∷ s)

-- C_to_F and F_to_C.
unfoldable pub c_to_f : ℤ → ℤ
c_to_f temp = int32 (int32 (temp *ℤ pos 9) /ℤ 5 +ℤ pos 32)

unfoldable pub f_to_c : ℤ → ℤ
f_to_c temp = int32 (int32 (int32 (temp -ℤ pos 32) *ℤ pos 5) /ℤ 9)

-- The globals; mybuf is `none` outside open and release.
pub record Device : Type 0 where
  pub mybuf : Option (List ℕ)
  pub in_temp : ℤ
  pub out_temp : ℤ

-- kmalloc of 100 bytes, which hold anything.
unfoldable pub open_dev : List ℕ → Device → Device
open_dev fresh d = record d { mybuf = some fresh }

unfoldable pub release_dev : Device → Device
release_dev d = record d { mybuf = none }

-- -EFAULT
abbrev pub efault : ℤ
efault = negsuc 13

-- The conversion that a filled buffer asks for: its first byte is the choice, its third begins the
-- number.
unfoldable pub convert : List ℕ → Device → Device
convert buf d =
    let in_temp = atoi (drop 2 buf) in
    record d {
      mybuf = some buf;
      in_temp = in_temp;
      out_temp = if get_or buf 0 0 == b'1' then c_to_f in_temp else f_to_c in_temp;
    }

-- write_dev with `len` bytes that the user's buffer gives (`none` if copy_from_user fails). The
-- outer `none` is an access outside mybuf.
unfoldable pub write_dev : Option (List ℕ) → ℕ → Device → Option (Device × ℤ)
write_dev user len d = elim d.mybuf [
  | none ↦ none
  | some old ↦ if ltb (length old) len then none else elim user [
    | none ↦ some (d, efault)
    | some bytes ↦ some (convert (take len bytes ++ drop len old) d, pos len)
  ]
]

-- read_dev: the text in the buffer, and `len` bytes of it to the user. The result sizeof(read_dev),
-- the size of a function, is 1 with GCC.
unfoldable pub read_dev : Bool → ℕ → Device → Option (Device × ℤ × List ℕ)
read_dev copied len d = elim d.mybuf [
  | none ↦ none
  | some old ↦
      let text = print_int d.out_temp ++ 0 ∷ [] in
      let buf = text ++ drop (length text) old in
      if ltb (length old) len
      then none
      else some (
        record d { mybuf = some buf },
        if copied then pos 1 else efault,
        if copied then take len buf else [],
      )
]

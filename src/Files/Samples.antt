-- ===== src/Files/Samples.antt =====
-- The theorems on the file tools at concrete files, and tests.
use cn_lab.Base.{◌+◌, ◌≡◌, refl, List, [], ◌∷◌, ◌++◌, some, true, false, arith, codes, All}
use cn_lab.Base.Int.{ℤ, pos, negsuc}
use cn_lab.Base.Decimal.{print_int, decimal, write_digits, atoi_int, atoi, read_digits}
use cn_lab.Files.{
  merge_files, merge_loop, readint, skip_spaces, read_token, skip_white, signed, starts_number,
  finish_reading, print_number, write,
}
use cn_lab.Files.Merge.{render, Sorted, Short, count, merge_files_lem}
use cn_lab.Base.{ℕ, replicate, length, ◌-◌}
use cn_lab.Files.Separate.{separate, letters, digits}
use cn_lab.Files.Separate.Layout.{separate_lem}

abbrev first_file : List ℤ
first_file = negsuc 2 ∷ pos 5 ∷ []

abbrev second_file : List ℤ
second_file = pos 4 ∷ pos 5 ∷ pos 120 ∷ []

merge_test :
    merge_files 6 32 (codes "-3 5 ") (codes "4 5 120") ≡ some (codes "-3 4 5 5 120 " ++ 10 ∷ [])
unfolding merge_files merge_loop readint skip_spaces read_token skip_white signed starts_number
    finish_reading print_number write print_int decimal write_digits atoi_int atoi read_digits
merge_test = refl

first_file-Short : All Short first_file
unfolding print_int decimal write_digits
first_file-Short = omega arith

second_file-Short : All Short second_file
unfolding print_int decimal write_digits
second_file-Short = omega arith

no_start : starts_number 32 ≡ false
unfolding starts_number
no_start = refl

a_start : starts_number b'5' ≡ true
unfolding starts_number
a_start = refl

merge_files_lem_example :
    (zs : List ℤ) × (merge_files 6 32 (render first_file) (render second_file)
      ≡ some (render zs ++ 10 ∷ []))
    × Sorted zs
    × ((k : ℤ) → count k zs ≡ count k first_file + count k second_file)
merge_files_lem_example =
    merge_files_lem 6 32 first_file second_file (omega arith) no_start first_file-Short
      second_file-Short (omega arith) (omega arith)

-- a1 b2
abbrev mixed : List ℕ
mixed = b'a' ∷ b'1' ∷ 32 ∷ b'b' ∷ b'2' ∷ []

separate_lem_example :
    separate mixed
    ≡ letters mixed
      ++ (replicate (1000 - length (letters mixed)) 32 ++ (digits mixed ++ b'\n' ∷ []))
separate_lem_example = separate_lem mixed (omega arith)

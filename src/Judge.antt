-- ===== src/Judge.antt =====
-- The judge of 28-1-22/S.c: it compares what a submitted program printed with the expected output,
-- 1024 bytes at a time. A file is the list of its bytes, none if it cannot be opened.
pub mod Verdict
mod Samples
use cn_lab.Base.{
  ℕ, zero, suc, Option, none, some, List, [], ◌∷◌, ◌++◌, Bool, true, false, ◌==◌, if◌then◌else◌,
  length, take, drop, replicate,
}

-- What read puts into a buffer of 1024 bytes: the rest of the buffer stays as it was.
unfoldable pub read_into : List ℕ → List ℕ → List ℕ
read_into buffer file = take 1024 file ++ drop (length (take 1024 file)) buffer

-- strcmp of two buffers, as whether it returns 0; `none` if it reads past one of them.
unfoldable pub same_string : List ℕ → List ℕ → Option Bool
same_string [] b = none
same_string (c ∷ a) [] = none
same_string (c ∷ a) (d ∷ b) =
    let rest = same_string a b in
    if c == d then (if c == 0 then some true else rest) else some false

-- A round of the loop, by what strcmp finds and what the following rounds give.
unfoldable pub round : (found more : Option Bool) → Option Bool
round none more = none
round (some same) more = if same then more else some false

-- The loop of compareTestCase, at most `fuel` times: what `same` holds in the end.
unfoldable pub compare_loop : ℕ → (ebuffer abuffer expected actual : List ℕ) → Option Bool
compare_loop zero ebuffer abuffer expected actual = none
compare_loop (suc fuel) ebuffer abuffer [] actual = some true
compare_loop (suc fuel) ebuffer abuffer (c ∷ expected) actual =
    let ebuffer' = read_into ebuffer (c ∷ expected) in
    let abuffer' = read_into abuffer actual in
    let more = compare_loop fuel ebuffer' abuffer' (drop 1024 (c ∷ expected)) (drop 1024 actual) in
    round (same_string ebuffer' abuffer') more

abbrev pub contents : Option (List ℕ) → List ℕ
contents none = []
contents (some file) = file

-- compareTestCase: whether it sends "Test case passed". A read of a file that is not open returns
-- -1, which ends the loop, or leaves the buffer.
unfoldable pub compare_test_case : (expected actual : Option (List ℕ)) → Option Bool
compare_test_case expected actual =
    let buffer = replicate 1024 0 in
    compare_loop (suc (length (contents expected))) buffer buffer (contents expected)
      (contents actual)

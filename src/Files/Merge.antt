-- ===== src/Files/Merge.antt =====
-- What 1/1/sort.c does with files of printed numbers.
use cn_lab.Base.{
  ℕ, zero, suc, ◌+◌, ◌/◌, ◌%◌, ◌<◌, ◌≡◌, refl, sym, ap, ◌∙◌, List, [], ◌∷◌, ◌++◌, true, false,
  Option, none, some, ◌&&◌, ◌||◌, ◌==◌, ltb, leb, if◌then◌else◌, length, All, Bool-cases, inl, inr,
  append_assoc, arith,
}
use mathlib.Core.Path.{subst}
use cn_lab.Base.Int.{ℤ, pos, negsuc, ltb_ℤ, ◌≤ℤ◌, pos_part, neg_part}
use cn_lab.Base.Decimal.{
  decimal, decimal-head, write_digits, print_int, atoi_int, atoi_int-print_int,
}
use cn_lab.Files.{
  skip_spaces, read_token, skip_white, signed, Reading, starts_number, readint, finish_reading,
  print_number, write, merge_loop, merge_files,
}

-- A file as sort.c writes it: each number with a space behind it.
abbrev pub render : List ℤ → List ℕ
render [] = []
render (x ∷ xs) = print_int x ++ 32 ∷ render xs

-- Numbers of at most eight characters.
abbrev pub Short : ℤ → Type 0
Short x = length (print_int x) < 9

NoSpace : List ℕ → Type 0
NoSpace = All (λ c. (c == 32) ≡ false)

write_digits-NoSpace : (f n : ℕ) (out : List ℕ) → NoSpace out → NoSpace (write_digits f n out)
unfolding write_digits NoSpace
write_digits-NoSpace zero n out h = (ground arith, h)
write_digits-NoSpace (suc f) n out h =
    let later = write_digits-NoSpace f (n / 10) ((b'0' + n % 10) ∷ out) (ground arith, h) in
    ground arith

read_token-append : (s rest : List ℕ) → NoSpace s → read_token (s ++ 32 ∷ rest) ≡ (s, rest)
unfolding read_token NoSpace
read_token-append [] rest h = refl
read_token-append (c ∷ s) rest (hc, h) = rw (read_token-append s rest h, hc)

decimal-NoSpace : (n : ℕ) → NoSpace (decimal n)
unfolding decimal NoSpace
decimal-NoSpace n = write_digits-NoSpace n n [] (ground arith)

print_int-head :
    (x : ℤ)
    → (c : ℕ) × (s : List ℕ) × (print_int x ≡ c ∷ s) × (starts_number c ≡ true) × (NoSpace (c ∷ s))
unfolding print_int starts_number
print_int-head (pos n) =
    let (c, s, e, digit) = decimal-head n in
    (c, s, e, ground arith, subst NoSpace e (decimal-NoSpace n))
print_int-head (negsuc n) =
    let later : NoSpace (b'-' ∷ decimal (suc n)) =
      unfold NoSpace in (refl, decimal-NoSpace (suc n)) in
    (b'-', decimal (suc n), refl, refl, later)

signed_text :
    (c : ℕ) (s : List ℕ) → starts_number c ≡ true → signed (skip_white (c ∷ s)) ≡ atoi_int (c ∷ s)
unfolding signed skip_white starts_number
signed_text c s h =
    let no_white : ((c == 32) || (leb 9 c && leb c 13)) ≡ false = ground arith in
    let no_plus : (c == b'+') ≡ false = ground arith in rw (no_white, no_plus)

-- atoi reads a printed number back.
signed-print_int : (x : ℤ) (junk : List ℕ) → signed (skip_white (print_int x ++ 0 ∷ junk)) ≡ x
signed-print_int x junk =
    let (c, s, e, start, spaces) = print_int-head x in
    rw (e, signed_text c (s ++ 0 ∷ junk) start) (rw e at (atoi_int-print_int x junk))

readint_text :
    (held c : ℕ) (s rest : List ℕ)
    → starts_number c ≡ true
    → NoSpace (c ∷ s)
    → length (c ∷ s) < 10
    → readint held (c ∷ s ++ 32 ∷ rest)
      ≡ Reading.number (signed (skip_white (c ∷ s ++ 0 ∷ []))) rest
unfolding readint skip_spaces finish_reading NoSpace
readint_text held c s rest start (hc, hs) short =
    let small : ltb (length (c ∷ s)) 10 ≡ true = ground arith in
    rw (hc, read_token-append s rest hs, start, small)

-- readint on a printed number.
readint-render :
    (held : ℕ) (x : ℤ) (rest : List ℕ)
    → Short x
    → readint held (print_int x ++ 32 ∷ rest) ≡ Reading.number x rest
readint-render held x rest short =
    let (c, s, e, start, spaces) = print_int-head x in
    let size : length (c ∷ s) < 10 = subst (λ t. length t < 10) e (omega arith) in
    rw e (
      readint_text held c s rest start spaces size
      ∙ ap (λ a. Reading.number a rest) (rw e at (signed-print_int x [])))

-- What readint leaves at the start of a written file.
abbrev reading : List ℤ → Reading
reading [] = Reading.no_number
reading (x ∷ xs) = Reading.number x (render xs)

readint-reading :
    (held : ℕ) (xs : List ℤ)
    → starts_number held ≡ false
    → All Short xs
    → readint held (render xs) ≡ reading xs
unfolding readint skip_spaces read_token finish_reading
readint-reading held [] h short = rw h
readint-reading held (x ∷ xs) h (hx, short) = readint-render held x (render xs) hx

write-print_number :
    (x : ℤ) (out : List ℕ)
    → Short x
    → write out (print_number x) ≡ some (out ++ (print_int x ++ 32 ∷ []))
unfolding write print_number
write-print_number x out short =
    let small : ltb (length (print_int x) + 1) 10 ≡ true = ground arith in rw small

render_step :
    (x : ℤ) (zs : List ℤ) (out : List ℕ)
    → (out ++ (print_int x ++ 32 ∷ [])) ++ (render zs ++ 10 ∷ [])
      ≡ out ++ (render (x ∷ zs) ++ 10 ∷ [])
render_step x zs out =
    append_assoc out (print_int x ++ 32 ∷ []) (render zs ++ 10 ∷ [])
    ∙ ap (λ t. out ++ t)
        (append_assoc (print_int x) (32 ∷ []) (render zs ++ 10 ∷ [])
          ∙ sym (append_assoc (print_int x) (32 ∷ render zs) (10 ∷ [])))

abbrev pub Sorted : List ℤ → Type 0
Sorted [] = Unit
Sorted (x ∷ xs) = All (λ y. x ≤ℤ y) xs × Sorted xs

-- How often a number stands in a list.
abbrev pub count : ℤ → List ℤ → ℕ
count k [] = 0
count k (x ∷ xs) =
    let rest = count k xs in
    if pos_part k == pos_part x && neg_part k == neg_part x then suc rest else rest

Merged : List ℤ → List ℤ → List ℤ → Type 0
Merged xs ys zs =
    Sorted zs
    × ((k : ℤ) → count k zs ≡ count k xs + count k ys)
    × ((b : ℤ) → All (λ y. b ≤ℤ y) xs → All (λ y. b ≤ℤ y) ys → All (λ y. b ≤ℤ y) zs)

Merged-first :
    (x : ℤ) (xs ys zs : List ℤ)
    → All (λ y. x ≤ℤ y) xs
    → All (λ y. x ≤ℤ y) ys
    → Merged xs ys zs
    → Merged (x ∷ xs) ys (x ∷ zs)
unfolding Merged
Merged-first x xs ys zs hx hy (sorted, counts, bounds) = (
  (bounds x hx hy, sorted),
  λ k. let e = counts k in ground arith,
  λ b (h, hs) ht. (h, bounds b hs ht),
)

Merged-second :
    (y : ℤ) (xs ys zs : List ℤ)
    → All (λ u. y ≤ℤ u) xs
    → All (λ u. y ≤ℤ u) ys
    → Merged xs ys zs
    → Merged xs (y ∷ ys) (y ∷ zs)
unfolding Merged
Merged-second y xs ys zs hx hy (sorted, counts, bounds) = (
  (bounds y hx hy, sorted),
  λ k. let e = counts k in ground arith,
  λ b hs (h, ht). (h, bounds b hs ht),
)

All-≤ℤ : (a b : ℤ) (xs : List ℤ) → a ≤ℤ b → All (λ y. b ≤ℤ y) xs → All (λ y. a ≤ℤ y) xs
All-≤ℤ a b [] h hs = hs
All-≤ℤ a b (x ∷ xs) h (hx, hs) = (omega (arith, h, hx), All-≤ℤ a b xs h hs)

-- The loop with its starting point anywhere in two written files.
merge_loop-render :
    (fuel held : ℕ) (xs ys : List ℤ) (out : List ℕ)
    → length xs + length ys < fuel
    → starts_number held ≡ false
    → All Short xs
    → All Short ys
    → Sorted xs
    → Sorted ys
    → (zs : List ℤ) × (merge_loop fuel held (reading xs) (reading ys) (some out)
        ≡ some (out ++ (render zs ++ 10 ∷ [])))
      × Merged xs ys zs
unfolding merge_loop Merged
merge_loop-render zero held xs ys out lt h hx hy sx sy = absurd (omega arith)
merge_loop-render (suc fuel) held [] [] out lt h hx hy sx sy =
    ([], refl, (ground arith, λ k. refl, λ b u v. u))
merge_loop-render (suc fuel) held (x ∷ xs) [] out lt h (hx, hxs) hy (sx, sxs) sy =
    let (zs, e, m) =
      merge_loop-render fuel held xs [] (out ++ (print_int x ++ 32 ∷ [])) (omega arith) h hxs hy sxs
        sy in
    (
      x ∷ zs,
      rw (readint-reading held xs h hxs, write-print_number x out hx)
          (e ∙ ap some (render_step x zs out)),
      Merged-first x xs [] zs sx (ground arith) m,
    )
merge_loop-render (suc fuel) held [] (y ∷ ys) out lt h hx (hy, hys) sx (sy, sys) =
    let (zs, e, m) =
      merge_loop-render fuel held [] ys (out ++ (print_int y ++ 32 ∷ [])) (omega arith) h hx hys sx
        sys in
    (
      y ∷ zs,
      rw (readint-reading held ys h hys, write-print_number y out hy)
          (e ∙ ap some (render_step y zs out)),
      Merged-second y [] ys zs (ground arith) sy m,
    )
merge_loop-render (suc fuel) held (x ∷ xs) (y ∷ ys) out lt h (hx, hxs) (hy, hys) (sx, sxs)
      (sy, sys) =
    elim (Bool-cases (ltb_ℤ x y)) [
      | inl less ↦
          let le : x ≤ℤ y = ground arith in
          let (zs, e, m) =
            merge_loop-render fuel held xs (y ∷ ys) (out ++ (print_int x ++ 32 ∷ [])) (omega arith)
              h hxs (hy, hys) sxs (sy, sys) in
          (
            x ∷ zs,
            rw (less, readint-reading held xs h hxs, write-print_number x out hx)
                (e ∙ ap some (render_step x zs out)),
            Merged-first x xs (y ∷ ys) zs sx (le, All-≤ℤ x y ys le sy) m,
          )
      | inr more ↦
          let le : y ≤ℤ x = ground arith in
          let (zs, e, m) =
            merge_loop-render fuel held (x ∷ xs) ys (out ++ (print_int y ++ 32 ∷ [])) (omega arith)
              h (hx, hxs) hys (sx, sxs) sys in
          (
            y ∷ zs,
            rw (more, readint-reading held ys h hys, write-print_number y out hy)
                (e ∙ ap some (render_step y zs out)),
            Merged-second y (x ∷ xs) ys zs (le, All-≤ℤ y x xs le sx) sy m,
          )
    ]

-- sort.c on two files of sorted numbers of at most eight characters, each with a space behind it,
-- where the uninitialised c of readint holds no digit and no minus: with fuel for one round more
-- than there are numbers, f3.txt is a written file, with a newline behind it, of numbers that are
-- sorted and in which every number stands as often as in both files together.
pub merge_files_lem :
    (fuel held : ℕ) (xs ys : List ℤ)
    → length xs + length ys < fuel
    → starts_number held ≡ false
    → All Short xs
    → All Short ys
    → Sorted xs
    → Sorted ys
    → (zs : List ℤ) × (merge_files fuel held (render xs) (render ys) ≡ some (render zs ++ 10 ∷ []))
      × Sorted zs
      × ((k : ℤ) → count k zs ≡ count k xs + count k ys)
unfolding merge_files Merged
merge_files_lem fuel held xs ys lt h hx hy sx sy =
    let (zs, e, (sorted, counts, bounds)) = merge_loop-render fuel held xs ys [] lt h hx hy sx sy in
    (zs, rw (readint-reading held xs h hx, readint-reading held ys h hy) e, sorted, counts)

-- What readint leaves at the start of a written file if c holds the start of a number.
readint-held :
    (held : ℕ) (xs : List ℤ)
    → starts_number held ≡ true
    → All Short xs
    → (n : ℤ) × (rest : List ℤ) × (readint held (render xs) ≡ Reading.number n (render rest))
      × All Short rest
unfolding readint skip_spaces read_token finish_reading
readint-held held [] h short = (signed (skip_white (held ∷ 0 ∷ [])), [], rw h, short)
readint-held held (x ∷ xs) h (hx, short) = (x, xs, readint-render held x (render xs) hx, short)

merge_loop-held :
    (fuel held : ℕ) (a b : ℤ) (xs ys : List ℤ) (out : Option (List ℕ))
    → starts_number held ≡ true
    → All Short xs
    → All Short ys
    → merge_loop fuel held (Reading.number a (render xs)) (Reading.number b (render ys)) out ≡ none
unfolding merge_loop
merge_loop-held zero held a b xs ys out h hx hy = refl
merge_loop-held (suc fuel) held a b xs ys none h hx hy = refl
merge_loop-held (suc fuel) held a b xs ys (some out) h hx hy =
    let (n, rest, e, hr) = readint-held held xs h hx in
    let (m, rest', e', hr') = readint-held held ys h hy in
    let first = merge_loop-held fuel held n b rest ys (write out (print_number a)) h hr hy in
    let second = merge_loop-held fuel held a m xs rest' (write out (print_number b)) h hx hr' in
    rw (e, e') (ground (arith, first, second))

-- Where the uninitialised c of readint happens to hold a digit or a minus, sort.c never ends
-- regularly on files in which a space stands behind each number: for no number of rounds does its
-- loop come to an end.
pub merge_files-endless :
    (fuel held : ℕ) (xs ys : List ℤ)
    → starts_number held ≡ true
    → All Short xs
    → All Short ys
    → merge_files fuel held (render xs) (render ys) ≡ none
unfolding merge_files
merge_files-endless fuel held xs ys h hx hy =
    let (n, rest, e, hr) = readint-held held xs h hx in
    let (m, rest', e', hr') = readint-held held ys h hy in
    rw (e, e') (merge_loop-held fuel held n m rest rest' (some []) h hr hr')

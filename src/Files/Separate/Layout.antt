-- ===== src/Files/Separate/Layout.antt =====
-- Where the bytes of separate.c's result stand.
use cn_lab.Base.{
  ℕ, zero, suc, ◌+◌, ◌-◌, ◌≤◌, ◌<◌, ◌≡◌, refl, ap, sym, ◌∙◌, List, [], ◌∷◌, ◌++◌, true, false, ltb,
  length, length-append, length-replicate, replicate, append-nil, append_assoc, Bool-cases, inl,
  inr, arith,
}
use cn_lab.Files.Separate.{
  isnum, write_at, Heads, put, separate_loop, fill, separate, letters, digits,
}

write_at-end : (c : ℕ) (xs : List ℕ) → write_at (length xs) c xs ≡ xs ++ c ∷ []
unfolding write_at
write_at-end c [] = refl
write_at-end c (x ∷ xs) = ap (λ l. x ∷ l) (write_at-end c xs)

write_at-over : (c y : ℕ) (xs ys : List ℕ) → write_at (length xs) c (xs ++ y ∷ ys) ≡ xs ++ c ∷ ys
unfolding write_at
write_at-over c y [] ys = refl
write_at-over c y (x ∷ xs) ys = ap (λ l. x ∷ l) (write_at-over c y xs ys)

write_at-gap :
    (c n k : ℕ) (xs : List ℕ)
    → n ≡ length xs + k
    → write_at n c xs ≡ xs ++ (replicate k 0 ++ c ∷ [])
unfolding write_at
write_at-gap c zero zero [] e = refl
write_at-gap c zero (suc k) [] e = absurd (omega arith)
write_at-gap c (suc n) zero [] e = absurd (omega arith)
write_at-gap c (suc n) (suc k) [] e = ap (λ l. 0 ∷ l) (write_at-gap c n k [] (omega arith))
write_at-gap c zero k (x ∷ xs) e = absurd (omega arith)
write_at-gap c (suc n) k (x ∷ xs) e = ap (λ l. x ∷ l) (write_at-gap c n k xs (omega arith))

-- f2.txt with l at its start and d from position `base` on.
abbrev layout : ℕ → List ℕ → List ℕ → List ℕ
layout base l [] = l
layout base l (x ∷ d) = l ++ (replicate (base - length l) 0 ++ x ∷ d)

length-layout :
    (base x : ℕ) (l d : List ℕ)
    → length l ≤ base
    → length (layout base l (x ∷ d)) ≡ base + length (x ∷ d)
length-layout base x l d h =
    length-append l (replicate (base - length l) 0 ++ x ∷ d)
    ∙ ap (λ n. length l + n) (length-append (replicate (base - length l) 0) (x ∷ d))
    ∙ omega (arith, length-replicate {A = ℕ} (base - length l) 0)

write_at-letter :
    (base c : ℕ) (l d : List ℕ)
    → length l < base
    → write_at (length l) c (layout base l d) ≡ layout base (l ++ c ∷ []) d
write_at-letter base c l [] h = write_at-end c l
write_at-letter base c l (x ∷ d) h =
    let (k, e, f) : (k : ℕ) × (base - length l ≡ suc k) × (base - length (l ++ c ∷ []) ≡ k) =
      (base - suc (length l), omega arith, omega (arith, length-append l (c ∷ []))) in
    rw (e, f, append_assoc) (write_at-over c 0 l (replicate k 0 ++ x ∷ d))

write_at-digit :
    (base c : ℕ) (l d : List ℕ)
    → length l ≤ base
    → write_at (base + length d) c (layout base l d) ≡ layout base l (d ++ c ∷ [])
write_at-digit base c l [] h = write_at-gap c (base + 0) (base - length l) l (omega arith)
write_at-digit base c l (x ∷ d) h = rw (sym (length-layout base x l d h)) (
    write_at-end c (layout base l (x ∷ d))
    ∙ append_assoc l (replicate (base - length l) 0 ++ x ∷ d) (c ∷ [])
    ∙ ap (λ r. l ++ r) (append_assoc (replicate (base - length l) 0) (x ∷ d) (c ∷ [])))

-- Where the loop stands when it has seen the letters l and the digits d.
abbrev heads : List ℕ → List ℕ → Heads
heads l d = record { f2 = layout 1000 l d; char_head = length l; num_head = 1000 + length d }

heads_lem :
    {f f' : List ℕ} {a a' b b' : ℕ}
    → f ≡ f'
    → a ≡ a'
    → b ≡ b'
    → ◌≡◌ {A = Heads}
        (record { f2 = f; char_head = a; num_head = b })
        (record { f2 = f'; char_head = a'; num_head = b' })
heads_lem e e' e'' = cc

put-digit :
    (c : ℕ) (l d : List ℕ)
    → isnum c ≡ true
    → length l ≤ 1000
    → put c (heads l d) ≡ heads l (d ++ c ∷ [])
unfolding put
put-digit c l d digit h =
    rw digit
      (heads_lem (write_at-digit 1000 c l d h) refl (omega (arith, length-append d (c ∷ []))))

put-letter :
    (c : ℕ) (l d : List ℕ)
    → isnum c ≡ false
    → length l < 1000
    → put c (heads l d) ≡ heads (l ++ c ∷ []) d
unfolding put
put-letter c l d letter h =
    rw letter
      (heads_lem (write_at-letter 1000 c l d h) (omega (arith, length-append l (c ∷ []))) refl)

separate_loop-heads :
    (f1 l d : List ℕ)
    → length l + length (letters f1) ≤ 1000
    → separate_loop f1 (heads l d) ≡ heads (l ++ letters f1) (d ++ digits f1)
unfolding separate_loop
separate_loop-heads [] l d h = rw (append-nil l, append-nil d) refl
separate_loop-heads (c ∷ f1) l d h = elim (Bool-cases (isnum c)) [
  | inl digit ↦
      let h' : length l + length (letters f1) ≤ 1000 = rw digit at h in
      rw (put-digit c l d digit (omega arith), digit)
        (separate_loop-heads f1 l (d ++ c ∷ []) h'
          ∙ ap (λ r. heads (l ++ letters f1) r) (append_assoc d (c ∷ []) (digits f1)))
  | inr letter ↦
      let h' : length l + suc (length (letters f1)) ≤ 1000 = rw letter at h in
      rw (put-letter c l d letter (omega arith), letter)
        (separate_loop-heads f1 (l ++ c ∷ []) d (omega (arith, length-append l (c ∷ [])))
          ∙ ap (λ r. heads r (d ++ digits f1)) (append_assoc l (c ∷ []) (letters f1)))
]

fill_stops :
    (fuel : ℕ) (l d : List ℕ) → ltb (length l) 1000 ≡ false → fill fuel (heads l d) ≡ heads l d
unfolding fill
fill_stops zero l d full = refl
fill_stops (suc fuel) l d full = rw full refl

layout_full : (base : ℕ) (l d : List ℕ) → length l ≡ base → layout base l d ≡ l ++ d
layout_full base l [] e = sym (append-nil l)
layout_full base l (x ∷ d) e =
    let none_left : base - length l ≡ 0 = omega arith in rw none_left refl

fill-heads :
    (fuel k : ℕ) (l d : List ℕ)
    → length l + k ≡ 1000
    → k ≤ fuel
    → fill fuel (heads l d) ≡ heads (l ++ replicate k 32) d
unfolding fill
fill-heads fuel zero l d h lt =
    let full : ltb (length l) 1000 ≡ false = ground arith in
    rw (append-nil l) (fill_stops fuel l d full)
fill-heads zero (suc k) l d h lt = absurd (omega arith)
fill-heads (suc fuel) (suc k) l d h lt =
    let room : ltb (length l) 1000 ≡ true = ground arith in
    let next : record (heads l d) {
      f2 = write_at (length l) 32 (layout 1000 l d);
      char_head = suc (length l);
    }
        ≡ heads (l ++ 32 ∷ []) d =
      heads_lem (write_at-letter 1000 32 l d (omega arith))
        (omega (arith, length-append l (32 ∷ []))) refl in
    rw room (
      ap (fill fuel) next
      ∙ fill-heads fuel k (l ++ 32 ∷ []) d (omega (arith, length-append l (32 ∷ []))) (omega arith)
      ∙ ap (λ r. heads r d) (append_assoc l (32 ∷ []) (replicate k 32)))

-- separate.c leaves a file with the bytes that are no digits at its start, spaces up to position
-- 1000, the digits from there on and a newline, if at most 1000 bytes are no digits.
pub separate_lem :
    (f1 : List ℕ)
    → length (letters f1) ≤ 1000
    → separate f1
      ≡ letters f1 ++ (replicate (1000 - length (letters f1)) 32 ++ (digits f1 ++ b'\n' ∷ []))
unfolding separate
separate_lem f1 h =
    let l = letters f1 in
    let d = digits f1 in
    let spaces : List ℕ = replicate (1000 - length l) 32 in
    let full : length (l ++ spaces) ≡ 1000 =
      omega (arith, length-append l spaces, length-replicate {A = ℕ} (1000 - length l) 32) in
    let e : fill 1000 (separate_loop f1 (heads [] [])) ≡ heads (l ++ spaces) d =
      ap (fill 1000) (separate_loop-heads f1 [] [] (omega arith))
      ∙ fill-heads 1000 (1000 - length l) l d (omega arith) (omega arith) in
    ap (λ h. write_at h.num_head b'\n' h.f2) e
    ∙ write_at-digit 1000 b'\n' (l ++ spaces) d (omega arith)
    ∙ layout_full 1000 (l ++ spaces) (d ++ b'\n' ∷ []) full
    ∙ append_assoc l spaces (d ++ b'\n' ∷ [])

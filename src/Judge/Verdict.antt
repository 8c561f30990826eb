-- ===== src/Judge/Verdict.antt =====
-- The verdict on files of text.
use cn_lab.Base.{
  ℕ, zero, suc, ◌≤◌, ◌<◌, ◌≡◌, refl, ap, ◌∙◌, Option, none, some, List, [], ◌∷◌, ◌++◌, Bool, true,
  false, ◌&&◌, ◌==◌, ltb, ltb→lt, if◌then◌else◌, length, take, drop, drop_all, take_all, replicate,
  Bool-cases, inl, inr, arith,
}
use cn_lab.Base.Packet.{NoNul, same_text}
use cn_lab.Judge.{read_into, same_string, round, compare_loop, contents, compare_test_case}

-- The verdict that the judge is to give, and where it reads past its buffers.
abbrev pub verdict : (expected actual : List ℕ) → Option Bool
verdict [] actual = some true
verdict (c ∷ expected) actual =
    if ltb (length (c ∷ expected)) 1024
    then some (same_text (c ∷ expected) actual)
    else (if same_text (take 1024 (c ∷ expected)) (take 1024 actual) then none else some false)

-- A text in a buffer of m bytes that are 0 otherwise.
abbrev in_buffer : ℕ → List ℕ → List ℕ
in_buffer zero u = u
in_buffer (suc m) [] = 0 ∷ in_buffer m []
in_buffer (suc m) (c ∷ u) = c ∷ in_buffer m u

replicate-in_buffer : (m : ℕ) → replicate m 0 ≡ in_buffer m []
replicate-in_buffer zero = refl
replicate-in_buffer (suc m) = ap (λ l. 0 ∷ l) (replicate-in_buffer m)

take-in_buffer :
    (m : ℕ) (file : List ℕ)
    → take m file ++ drop (length (take m file)) (replicate m 0) ≡ in_buffer m (take m file)
take-in_buffer zero file = refl
take-in_buffer (suc m) [] = ap (λ l. 0 ∷ l) (replicate-in_buffer m)
take-in_buffer (suc m) (c ∷ file) = ap (λ l. c ∷ l) (take-in_buffer m file)

same_string_lem :
    (m : ℕ) (u v : List ℕ)
    → NoNul u
    → NoNul v
    → length u ≤ m
    → length v ≤ m
    → same_string (in_buffer m u) (in_buffer m v) ≡ (
        if ltb (length u) m
        then some (same_text u v)
        else (if same_text u v then none else some false))
unfolding same_string same_text
same_string_lem zero [] [] hu hv lu lv = refl
same_string_lem zero (c ∷ u) v hu hv lu lv = absurd (omega arith)
same_string_lem zero [] (d ∷ v) hu hv lu lv = absurd (omega arith)
same_string_lem (suc m) [] [] hu hv lu lv = ground arith
same_string_lem (suc m) [] (d ∷ v) hu (hd, hv) lu lv = ground arith
same_string_lem (suc m) (c ∷ u) [] (hc, hu) hv lu lv = ground arith
same_string_lem (suc m) (c ∷ u) (d ∷ v) (hc, hu) (hd, hv) lu lv =
    ground (arith, same_string_lem m u v hu hv (omega arith) (omega arith))

NoNul-take : (m : ℕ) (s : List ℕ) → NoNul s → NoNul (take m s)
NoNul-take zero s h = tt
NoNul-take (suc m) [] h = tt
NoNul-take (suc m) (c ∷ s) (hc, h) = (hc, NoNul-take m s h)

length-take_at_most : (m : ℕ) (s : List ℕ) → length (take m s) ≤ m
length-take_at_most zero s = omega arith
length-take_at_most (suc m) [] = omega arith
length-take_at_most (suc m) (c ∷ s) = omega (arith, length-take_at_most m s)

-- A text that is shorter than m is no front of a longer one.
same_text-take : (m : ℕ) (u v : List ℕ) → length u < m → same_text u (take m v) ≡ same_text u v
unfolding same_text
same_text-take zero u v h = absurd (omega arith)
same_text-take (suc m) [] [] h = refl
same_text-take (suc m) [] (d ∷ v) h = refl
same_text-take (suc m) (c ∷ u) [] h = refl
same_text-take (suc m) (c ∷ u) (d ∷ v) h =
    ap (λ b. c == d && b) (same_text-take m u v (omega arith))

read_into-zeros :
    (buffer file : List ℕ)
    → buffer ≡ replicate 1024 0
    → read_into buffer file ≡ in_buffer 1024 (take 1024 file)
unfolding read_into
read_into-zeros buffer file e =
    ap (λ b. take 1024 file ++ drop (length (take 1024 file)) b) e ∙ take-in_buffer 1024 file

first_round :
    (buffer expected actual : List ℕ)
    → buffer ≡ replicate 1024 0
    → NoNul expected
    → NoNul actual
    → same_string (read_into buffer expected) (read_into buffer actual) ≡ (
        if ltb (length (take 1024 expected)) 1024
        then some (same_text (take 1024 expected) (take 1024 actual))
        else (if same_text (take 1024 expected) (take 1024 actual) then none else some false))
first_round buffer expected actual e he ha =
    ap (λ b. same_string b (read_into buffer actual)) (read_into-zeros buffer expected e)
    ∙ ap (λ b. same_string (in_buffer 1024 (take 1024 expected)) b)
        (read_into-zeros buffer actual e)
    ∙ same_string_lem 1024 (take 1024 expected) (take 1024 actual) (NoNul-take 1024 expected he)
        (NoNul-take 1024 actual ha) (length-take_at_most 1024 expected)
        (length-take_at_most 1024 actual)

length-take_of_long : (m : ℕ) (s : List ℕ) → m ≤ length s → length (take m s) ≡ m
length-take_of_long zero s h = refl
length-take_of_long (suc m) [] h = absurd (omega arith)
length-take_of_long (suc m) (c ∷ s) h = ap suc (length-take_of_long m s (omega arith))

passes : (b : Bool) → round (some b) (some true) ≡ some b
unfolding round
passes true = refl
passes false = refl

fails :
    (b : Bool) (more : Option Bool)
    → round (if b then none else some false) more ≡ (if b then none else some false)
unfolding round
fails true more = refl
fails false more = refl

-- After the first buffer either the whole of a short file has been compared, or the loop has ended.
after_round :
    (m : ℕ) (e a : List ℕ) (more : Option Bool)
    → (ltb (length e) m ≡ true → more ≡ some true)
    → round
        (if ltb (length (take m e)) m
          then some (same_text (take m e) (take m a))
          else (if same_text (take m e) (take m a) then none else some false))
        more
      ≡ (if ltb (length e) m
          then some (same_text e a)
          else (if same_text (take m e) (take m a) then none else some false))
unfolding round
after_round m e a more ends = elim (Bool-cases (ltb (length e) m)) [
  | inl short ↦
      let lt = ltb→lt (length e) m short in
      rw (take_all m e (omega arith), short, same_text-take m e a lt, ends short)
        (passes (same_text e a))
  | inr long ↦
      let cut : ltb (length (take m e)) m ≡ false =
        ground (arith, length-take_of_long m e (ground arith)) in
      rw (cut, long) (fails (same_text (take m e) (take m a)) more)
]

compare_loop_lem :
    (buffer : List ℕ) (c : ℕ) (expected actual : List ℕ)
    → buffer ≡ replicate 1024 0
    → NoNul (c ∷ expected)
    → NoNul actual
    → compare_loop (suc (length (c ∷ expected))) buffer buffer (c ∷ expected) actual
      ≡ verdict (c ∷ expected) actual
unfolding compare_loop
compare_loop_lem buffer c expected actual e he ha =
    ap
      (λ f. round f (
        compare_loop (suc (length expected)) (read_into buffer (c ∷ expected))
          (read_into buffer actual) (drop 1024 (c ∷ expected)) (drop 1024 actual)))
      (first_round buffer (c ∷ expected) actual e he ha)
    ∙ after_round 1024 (c ∷ expected) actual _ (λ short.
      rw (drop_all 1024 (c ∷ expected) (omega (arith, ltb→lt (length (c ∷ expected)) 1024 short)))
        refl)

-- For texts without a NUL byte the judge decides as follows: a test with an empty or missing expected
-- file is passed; an expected text of less than 1024 bytes is compared with the whole output, where
-- a missing output counts as empty; for a longer one the test fails if the first 1024 bytes differ,
-- and otherwise strcmp reads past its two buffers.
pub compare_test_case-verdict :
    (expected actual : Option (List ℕ))
    → NoNul (contents expected)
    → NoNul (contents actual)
    → compare_test_case expected actual ≡ verdict (contents expected) (contents actual)
unfolding compare_test_case compare_loop
compare_test_case-verdict none actual he ha = refl
compare_test_case-verdict (some []) actual he ha = refl
compare_test_case-verdict (some (c ∷ expected)) actual he ha =
    compare_loop_lem (replicate 1024 0) c expected (contents actual) refl he ha

-- ===== src/Proxy/Print.antt =====
-- PrintData: its rounds print each byte once and in order.
use cn_lab.Base.{
  ℕ, zero, suc, ◌+◌, ◌-◌, ◌%◌, ◌<◌, ◌≡◌, refl, sym, ap, ◌∙◌, List, [], ◌∷◌, ◌++◌, append_assoc,
  append-nil, true, false, Bool-cases, inl, inr, not, ◌&&◌, ◌==◌, if◌then◌else◌, arith,
}
use cn_lab.Base.Memory.{Memory, load_all}
use cn_lab.Proxy.{printed, print_from, print_round, print_rounds, print_data}
use mathlib.Core.List.{map}

print_from-add :
    (m : Memory) (a j b : ℕ) → print_from m j (a + b) ≡ print_from m j a ++ print_from m (j + a) b
unfolding print_from
print_from-add m zero j b =
    let start : j + 0 ≡ j = omega arith in
    let none_yet : 0 + b ≡ b = omega arith in rw (start, none_yet) refl
print_from-add m (suc a) j b =
    let next : suc j + a ≡ j + suc a = omega arith in
    let more : suc a + b ≡ suc (a + b) = omega arith in
    rw more (ap (λ l. printed (m j) ∷ l) (rw next at (print_from-add m a (suc j) b)))

print_from-load_all : (n : ℕ) (m : Memory) (j : ℕ) → print_from m j n ≡ map printed (load_all n m j)
unfolding load_all print_from
print_from-load_all zero m j = refl
print_from-load_all (suc n) m j =
    let next : suc j ≡ j + 1 = omega arith in
    ap (λ l. printed (m j) ∷ l) (rw next (print_from-load_all n m (j + 1)))

-- Two stretches that meet.
print_from_meet :
    (m : Memory) (a b n : ℕ) → a + b ≡ n → print_from m 0 a ++ print_from m a b ≡ print_from m 0 n
print_from_meet m a b n e =
    let start : 0 + a ≡ a = omega arith in
    sym (
      ap (print_from m 0) (sym e)
      ∙ print_from-add m a 0 b
      ∙ ap (λ k. print_from m 0 a ++ print_from m k b) start)

-- What stands before the block of i, and what the round for i adds when a block is complete.
abbrev blocks : Memory → ℕ → List ℕ
blocks m i = print_from m 0 (i - i % 16)

-- A round that is not the last one completes the blocks of 16 bytes before it.
blocks-print_round :
    (m : Memory) (size n : ℕ) → suc n < size → blocks m (n - 1) ++ print_round m size n ≡ blocks m n
unfolding print_round
blocks-print_round m size n lt =
    let before_last : (n == size - 1) ≡ false = ground arith in
    elim (Bool-cases (not (n == 0) && (n % 16 == 0))) [
      | inl full ↦
          let a : n - 1 - (n - 1) % 16 ≡ n - 16 = ground arith in
          let b : n - n % 16 ≡ n = ground arith in
          rw (before_last, full, a, b, append-nil (print_from m (n - 16) 16))
            (print_from_meet m (n - 16) 16 n (ground arith))
      | inr partial ↦
          let a : n - 1 - (n - 1) % 16 ≡ n - n % 16 = ground arith in
          rw (before_last, partial, a) (append-nil (blocks m n))
    ]

rounds_before : (m : Memory) (size n : ℕ) → n < size → print_rounds m size n ≡ blocks m (n - 1)
unfolding print_rounds print_from
rounds_before m size zero lt = refl
rounds_before m size (suc n) lt =
    let now : suc n - 1 ≡ n = omega arith in
    rw now (
      ap (λ l. l ++ print_round m size n) (rounds_before m size n (omega arith))
      ∙ blocks-print_round m size n lt)

-- The last round: the full block before it, if there is one, and the block that it is in.
last_round :
    (m : Memory) (n : ℕ)
    → blocks m (n - 1) ++ print_round m (suc n) n ≡ print_from m 0 (suc n) ++ b'\n' ∷ []
unfolding print_round
last_round m n =
    let last : (n == suc n - 1) ≡ true = ground arith in
    let rest = print_from m (n - n % 16) (suc (n % 16)) in
    let whole : blocks m n ++ (rest ++ b'\n' ∷ []) ≡ print_from m 0 (suc n) ++ b'\n' ∷ [] =
      sym (append_assoc (blocks m n) rest (b'\n' ∷ []))
      ∙ ap (λ l. l ++ b'\n' ∷ [])
          (print_from_meet m (n - n % 16) (suc (n % 16)) (suc n) (omega arith)) in
    elim (Bool-cases (not (n == 0) && (n % 16 == 0))) [
      | inl full ↦
          let a : n - 1 - (n - 1) % 16 ≡ n - 16 = ground arith in
          let line : List ℕ = rest ++ b'\n' ∷ [] in
          rw (last, full, a)
            (sym (append_assoc (print_from m 0 (n - 16)) (print_from m (n - 16) 16) line)
              ∙ ap (λ l. l ++ line) (print_from_meet m (n - 16) 16 (n - n % 16) (ground arith))
              ∙ whole)
      | inr partial ↦
          let a : n - 1 - (n - 1) % 16 ≡ n - n % 16 = ground arith in rw (last, partial, a) whole
    ]

-- For every Size, PrintData prints one character for each of the Size bytes, in order: the byte
-- itself from 32 to 128 and a dot otherwise; then the end of the line, unless there are no bytes.
pub print_data_lem :
    (m : Memory) (size : ℕ)
    → print_data m size ≡ map printed (load_all size m 0) ++ (if size == 0 then [] else b'\n' ∷ [])
unfolding print_data print_rounds load_all
print_data_lem m zero = refl
print_data_lem m (suc n) =
    let some_bytes : (suc n == 0) ≡ false = ground arith in
    rw some_bytes (
      ap (λ l. l ++ print_round m (suc n) n) (rounds_before m (suc n) n (omega arith))
      ∙ last_round m n
      ∙ ap (λ l. l ++ b'\n' ∷ []) (print_from-load_all (suc n) m 0))

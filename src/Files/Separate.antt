-- ===== src/Files/Separate.antt =====
-- separate.c: the digits of a file behind its other bytes.
pub mod Layout
use cn_lab.Base.{
  ℕ, zero, suc, ◌+◌, ◌-◌, ◌≤◌, ◌<◌, ◌≡◌, ◌≢◌, refl, ap, sym, ◌∙◌, Option, none, some, List, [], ◌∷◌,
  ◌++◌, Bool, true, false, not, ◌&&◌, ◌==◌, leb, ltb, if◌then◌else◌, length, length-append,
  replicate, append-nil, append_assoc, Bool-cases, inl, inr, arith,
}

abbrev pub isnum : ℕ → Bool
isnum c = leb b'0' c && leb c b'9'

-- lseek to a position and write of one byte; what lies between the end and the position is 0.
unfoldable pub write_at : ℕ → ℕ → List ℕ → List ℕ
write_at zero c [] = c ∷ []
write_at zero c (x ∷ file) = c ∷ file
write_at (suc n) c [] = 0 ∷ write_at n c []
write_at (suc n) c (x ∷ file) = x ∷ write_at n c file

-- f2.txt, char_head and num_head.
pub record Heads : Type 0 where
  pub f2 : List ℕ
  pub char_head : ℕ
  pub num_head : ℕ

unfoldable pub put : ℕ → Heads → Heads
put c h =
    if isnum c
    then record h { f2 = write_at h.num_head c h.f2; num_head = suc h.num_head }
    else record h { f2 = write_at h.char_head c h.f2; char_head = suc h.char_head }

unfoldable pub separate_loop : List ℕ → Heads → Heads
separate_loop [] h = h
separate_loop (c ∷ f1) h = separate_loop f1 (put c h)

-- The loop that writes spaces up to position 1000, at most `fuel` times.
unfoldable pub fill : ℕ → Heads → Heads
fill zero h = h
fill (suc fuel) h =
    let more =
      fill fuel (record h { f2 = write_at h.char_head 32 h.f2; char_head = suc h.char_head }) in
    if ltb h.char_head 1000 then more else h

unfoldable pub separate : List ℕ → List ℕ
separate f1 =
    let h = fill 1000 (separate_loop f1 (record { f2 = []; char_head = 0; num_head = 1000 })) in
    write_at h.num_head b'\n' h.f2

-- The bytes of a file that are no digits, and its digits.
abbrev pub letters : List ℕ → List ℕ
letters [] = []
letters (c ∷ f1) = if isnum c then letters f1 else c ∷ letters f1

abbrev pub digits : List ℕ → List ℕ
digits [] = []
digits (c ∷ f1) = if isnum c then c ∷ digits f1 else digits f1

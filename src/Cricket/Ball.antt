-- ===== src/Cricket/Ball.antt =====
-- The ball: the open file that bowl.c, bat.c and umpire.c pass round, with one offset for all of
-- them. Every read and write is of an int, so the file is a list of ints and the offset counts them.
use cn_lab.Base.{
  ℕ, suc, ◌+◌, ◌-◌, ◌%◌, ◌≡◌, refl, none, some, List, [], ◌∷◌, ◌++◌, Bool, arith, ltb, ◌==◌, ◌∙◌,
  ap, if◌then◌else◌, length, get_elem?, set, replicate, length-append, append_assoc, append-nil,
  false,
}
use native.Mathlib.Numerals.{add-one}

pub record File : Type 0 where
  pub cells : List ℕ
  pub pos : ℕ

-- open with O_TRUNC.
abbrev pub new_file : File
new_file = record { cells = []; pos = 0 }

-- A write past the end fills the gap with zeros.
unfoldable pub write_int : ℕ → File → File
write_int v f = record f {
  cells =
      if ltb f.pos (length f.cells)
      then set f.cells f.pos v
      else (f.cells ++ replicate (f.pos - length f.cells) 0) ++ v ∷ [];
  pos = f.pos + 1;
}

-- read(fd, &v, sizeof(v)): at the end of the file v keeps its value.
unfoldable pub read_int : ℕ → File → ℕ × File
read_int held f = elim (get_elem? f.cells f.pos) [
  | none ↦ (held, f)
  | some v ↦ (v, record f { pos = f.pos + 1 })
]

-- bowl.c: the two numbers at the present offset, to which it then seeks back.
unfoldable pub bowl : ℕ → ℕ → File → File
bowl speed spin f = record (write_int spin (write_int speed f)) { pos = f.pos }

-- bat.c: the batsman's reads of speed and spin; the variables are not initialised.
unfoldable pub bat_reads : ℕ → ℕ → File → (ℕ × ℕ) × File
bat_reads held held' f =
    let (speed, f₁) = read_int held f in let (spin, f₂) = read_int held' f₁ in ((speed, spin), f₂)

unfoldable pub misses : ℕ → ℕ → Bool
misses speed spin = (speed + spin) % 4 == 0

-- Between two deliveries everything in the file has been read.
abbrev pub IsRead : File → Type 0
IsRead f = f.pos ≡ length f.cells

write_int_at_end :
    (v : ℕ) (f : File)
    → IsRead f
    → write_int v f ≡ record { cells = f.cells ++ v ∷ []; pos = f.pos + 1 }
unfolding write_int
write_int_at_end v f h =
    let test : ltb f.pos (length f.cells) ≡ false = ground arith in
    let gap : f.pos - length f.cells ≡ 0 = omega arith in
    rw (test, gap) (λ i. record { cells = append-nil f.cells i ++ v ∷ []; pos = f.pos + 1 })

bowl_at_end :
    (speed spin : ℕ) (f : File)
    → IsRead f
    → bowl speed spin f ≡ record { cells = f.cells ++ speed ∷ spin ∷ []; pos = f.pos }
unfolding bowl
bowl_at_end speed spin f h =
    let first = write_int_at_end speed f h in
    let second =
      write_int_at_end spin (record { cells = f.cells ++ speed ∷ []; pos = f.pos + 1 })
        (omega (arith, length-append f.cells (speed ∷ []))) in
    λ i. record {
      cells =
          (ap (λ (g : File). (write_int spin g).cells) first
              ∙ ap (λ (g : File). g.cells) second
              ∙ append_assoc f.cells (speed ∷ []) (spin ∷ []))
            i;
      pos = f.pos;
    }

get_elem?-append :
    {A : Type 0} (xs : List A) (y : A) (ys : List A) → get_elem? (xs ++ y ∷ ys) (length xs) ≡ some y
get_elem?-append [] y ys = refl
get_elem?-append (x ∷ xs) y ys = get_elem?-append xs y ys

get_elem?-append_second :
    {A : Type 0} (xs : List A) (y z : A) → get_elem? (xs ++ y ∷ z ∷ []) (suc (length xs)) ≡ some z
get_elem?-append_second [] y z = refl
get_elem?-append_second (x ∷ xs) y z = get_elem?-append_second xs y z

read_int_at :
    (held v : ℕ) (f : File)
    → get_elem? f.cells f.pos ≡ some v
    → read_int held f ≡ (v, record f { pos = f.pos + 1 })
unfolding read_int
read_int_at held v f e = rw (e, read_int)

bat_reads_both :
    (speed spin held held' : ℕ) (xs : List ℕ)
    → bat_reads held held' (record { cells = xs ++ speed ∷ spin ∷ []; pos = length xs })
      ≡ ((speed, spin), record { cells = xs ++ speed ∷ spin ∷ []; pos = length xs + 1 + 1 })
unfolding bat_reads
bat_reads_both speed spin held held' xs =
    let cells = xs ++ speed ∷ spin ∷ [] in
    let second : get_elem? cells (length xs + 1) ≡ some spin =
      rw add-one (get_elem?-append_second xs speed spin) in
    rw (
      read_int_at held speed (record { cells = cells; pos = length xs })
          (get_elem?-append xs speed (spin ∷ [])),
      read_int_at held' spin (record { cells = cells; pos = length xs + 1 }) second,
    )

-- What the bowler writes the batsman reads, whatever its variables held; the file keeps all earlier
-- deliveries, and afterwards everything in it has been read, if that was so before.
pub bat_reads-bowl :
    (speed spin held held' : ℕ) (f : File)
    → IsRead f
    → (f' : File) × (bat_reads held held' (bowl speed spin f) ≡ ((speed, spin), f'))
      × (f'.cells ≡ f.cells ++ speed ∷ spin ∷ [])
      × IsRead f'
bat_reads-bowl speed spin held held' f h =
    let cells = f.cells ++ speed ∷ spin ∷ [] in
    (
      record { cells = cells; pos = length f.cells + 1 + 1 },
      rw (bowl_at_end speed spin f h, h) (bat_reads_both speed spin held held' f.cells),
      refl,
      omega (arith, length-append f.cells (speed ∷ spin ∷ [])),
    )

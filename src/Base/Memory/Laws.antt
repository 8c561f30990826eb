-- ===== src/Base/Memory/Laws.antt =====
-- Loads after stores.

use cn_lab.Base.Lists.{length, All, replicate}
use cn_lab.Base.Memory.{
  Memory, store8, store16, store32, store_all, store_string, load32, load_all, load_string,
}
use Prim.Native.Nat.{ℕ, zero, suc, ◌+◌, ◌/◌, ◌≤◌, ◌<◌}
use mathlib.Core.Path.{◌≡◌, refl, ap, ◌∙◌}
use mathlib.Core.List.{List, [], ◌∷◌, ◌++◌}
use native.Mathlib.Omega.{arith}

pub load32-store32 : (p v : ℕ) (m : Memory) → v < 4294967296 → load32 (store32 p v m) p ≡ v
load32-store32 p v m h = ground arith

pub load32-store32_ne : (p q v : ℕ) (m : Memory) → q + 4 ≤ p → load32 (store32 p v m) q ≡ load32 m q
load32-store32_ne p q v m h = ground arith

-- A store behind a field leaves the text in it alone.
pub load_string-store8 :
    (n p q v : ℕ) (m : Memory) → p + n ≤ q → load_string n (store8 q v m) p ≡ load_string n m p
unfolding load_string
load_string-store8 zero p q v m h = refl
load_string-store8 (suc n) p q v m h =
    ground (arith, load_string-store8 n (p + 1) q v m (omega arith))

load_string-store16 :
    (n p q v : ℕ) (m : Memory) → p + n ≤ q → load_string n (store16 q v m) p ≡ load_string n m p
load_string-store16 n p q v m h =
    load_string-store8 n p (q + 1) (v / 256) (store8 q v m) (omega arith)
    ∙ load_string-store8 n p q v m h

pub load_string-store32 :
    (n p q v : ℕ) (m : Memory) → p + n ≤ q → load_string n (store32 q v m) p ≡ load_string n m p
load_string-store32 n p q v m h =
    load_string-store16 n p (q + 2) (v / 65536) (store16 q v m) (omega arith)
    ∙ load_string-store16 n p q v m h

pub store_all-below : (bs : List ℕ) (p q : ℕ) (m : Memory) → q < p → store_all p bs m q ≡ m q
store_all-below [] p q m h = refl
store_all-below (b ∷ bs) p q m h =
    ground (arith, store_all-below bs (p + 1) q (store8 p b m) (omega arith))

-- A byte that a C string can hold.
abbrev pub IsText : ℕ → Type 0
IsText b = (0 < b) × (b < 256)

-- A text that is shorter than the field is read back.
pub load_string-store_string :
    (s : List ℕ) (n p : ℕ) (m : Memory)
    → All IsText s
    → length s < n
    → load_string n (store_string p s m) p ≡ s
unfolding load_string
load_string-store_string [] zero p m h fits = absurd (omega arith)
load_string-store_string [] (suc n) p m h fits = ground arith
load_string-store_string (b ∷ s) zero p m h fits = absurd (omega arith)
load_string-store_string (b ∷ s) (suc n) p m (hb, h) fits = ground (
  arith,
  load_string-store_string s n (p + 1) (store8 p b m) h (omega arith),
  store_all-below (s ++ 0 ∷ []) (p + 1) p (store8 p b m) (omega arith),
)

-- Two stretches of n bytes that agree byte for byte.
pub load_all-cong :
    (n p p' : ℕ) (m m' : Memory)
    → ((i : ℕ) → i < n → m (p + i) ≡ m' (p' + i))
    → load_all n m p ≡ load_all n m' p'
unfolding load_all
load_all-cong zero p p' m m' h = refl
load_all-cong (suc n) p p' m m' h =
    let first : m p ≡ m' p' =
      let at : p + 0 ≡ p = omega arith in
      let at' : p' + 0 ≡ p' = omega arith in rw (at, at') at (h 0 (omega arith)) in
    let rest = load_all-cong n (p + 1) (p' + 1) m m' (λ i lt.
      let step : p + suc i ≡ p + 1 + i = omega arith in
      let step' : p' + suc i ≡ p' + 1 + i = omega arith in
      rw (step, step') at (h (suc i) (omega arith))) in
    λ i. first i ∷ rest i

-- A stretch in two parts, one of zeros, and one that a text was stored in.
pub load_all_zeros :
    (n p : ℕ) (m : Memory) → ((q : ℕ) → p ≤ q → m q ≡ 0) → load_all n m p ≡ replicate n 0
unfolding load_all
load_all_zeros zero p m h = refl
load_all_zeros (suc n) p m h =
    λ i. h p (omega arith) i ∷ load_all_zeros n (p + 1) m (λ q le. h q (omega arith)) i

pub load_all-add :
    (a b p : ℕ) (m : Memory) → load_all (a + b) m p ≡ load_all a m p ++ load_all b m (p + a)
unfolding load_all
load_all-add zero b p m =
    let none_yet : 0 + b ≡ b = omega arith in
    let start : p + 0 ≡ p = omega arith in rw (none_yet, start) refl
load_all-add (suc a) b p m =
    let more : suc a + b ≡ suc (a + b) = omega arith in
    let next : p + 1 + a ≡ p + suc a = omega arith in
    rw more (ap (λ l. m p ∷ l) (rw next at (load_all-add a b (p + 1) m)))

pub load_all-store_all :
    (s rest : List ℕ) (p : ℕ) (m : Memory)
    → All IsText s
    → load_all (length s) (store_all p (s ++ rest) m) p ≡ s
unfolding load_all
load_all-store_all [] rest p m h = refl
load_all-store_all (b ∷ s) rest p m (hb, h) =
    let first : store_all (p + 1) (s ++ rest) (store8 p b m) p ≡ b =
      store_all-below (s ++ rest) (p + 1) p (store8 p b m) (omega arith) ∙ ground arith in
    λ i. first i ∷ load_all-store_all s rest (p + 1) (store8 p b m) h i

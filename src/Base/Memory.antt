-- ===== src/Base/Memory.antt =====
-- A byte-addressed buffer, such as a packet under construction, with the stores and loads that the
-- programs make through struct pointers into it.
pub mod Laws
use cn_lab.Base.Tests.{◌==◌, if◌then◌else◌}
use Prim.Native.Nat.{ℕ, zero, suc, ◌+◌, ◌*◌, ◌/◌, ◌%◌}
use mathlib.Core.List.{List, [], ◌∷◌, ◌++◌}

-- What no store has reached keeps the value that it had.
abbrev pub Memory : Type 0
Memory = ℕ → ℕ

abbrev pub store8 : ℕ → ℕ → Memory → Memory
store8 p v m = λ q. if q == p then v % 256 else m q

abbrev pub store16 : ℕ → ℕ → Memory → Memory
store16 p v m = store8 (p + 1) (v / 256) (store8 p v m)

abbrev pub store32 : ℕ → ℕ → Memory → Memory
store32 p v m = store16 (p + 2) (v / 65536) (store16 p v m)

-- memcpy from a list of bytes.
abbrev pub store_all : ℕ → List ℕ → Memory → Memory
store_all p [] m = m
store_all p (b ∷ bs) m = store_all (p + 1) bs (store8 p b m)

abbrev pub load16 : Memory → ℕ → ℕ
load16 m p = m p + m (p + 1) * 256

abbrev pub load32 : Memory → ℕ → ℕ
load32 m p = load16 m p + load16 m (p + 2) * 65536

-- The n bytes at p.
unfoldable pub load_all : ℕ → Memory → ℕ → List ℕ
load_all zero m p = []
load_all (suc n) m p = m p ∷ load_all n m (p + 1)

-- strcpy into memory: the bytes of the text and a NUL.
abbrev pub store_string : ℕ → List ℕ → Memory → Memory
store_string p s = store_all p (s ++ 0 ∷ [])

-- strcpy out of a field of n bytes: up to the first NUL. What stands behind the field is not read.
unfoldable pub load_string : ℕ → Memory → ℕ → List ℕ
load_string zero m p = []
load_string (suc n) m p = let rest = load_string n m (p + 1) in if m p == 0 then [] else m p ∷ rest

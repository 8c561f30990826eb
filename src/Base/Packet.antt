-- ===== src/Base/Packet.antt =====
-- What a raw socket delivers: a packet as the list of its bytes, with the IP header in front, and C
-- strings inside a buffer.
use cn_lab.Base.Tests.{◌==◌, if◌then◌else◌}
use cn_lab.Base.Lists.{length, get_or, drop, drop-append, All}
use Prim.Native.Nat.{ℕ, ◌*◌, ◌%◌, ◌<◌}
use mathlib.Core.Bool.{Bool, true, false, ◌&&◌}
use mathlib.Core.List.{List, [], ◌∷◌, ◌++◌}
use mathlib.Core.Path.{◌≡◌, refl}
use mathlib.Core.Logic.{◌≢◌}
use native.Mathlib.Omega.{arith}

-- (ip->ihl)*4, the header's length by its first byte.
abbrev pub header_length : List ℕ → ℕ
header_length packet = get_or packet 0 0 % 16 * 4

-- buf + (ip->ihl)*4
unfoldable pub payload : List ℕ → List ℕ
payload packet = drop (header_length packet) packet

abbrev pub IsHeader : List ℕ → Type 0
IsHeader h = (0 < length h) × (header_length h ≡ length h)

pub header_length-append : (h rest : List ℕ) → IsHeader h → header_length (h ++ rest) ≡ length h
header_length-append [] rest (lt, words) = absurd (omega arith)
header_length-append (b ∷ h) rest (lt, words) = words

pub payload-append : (h rest : List ℕ) → IsHeader h → payload (h ++ rest) ≡ rest
unfolding payload
payload-append h rest ih = rw (header_length-append h rest ih) (drop-append h rest)

-- The text of a buffer: up to the first NUL, or the whole of what was received.
unfoldable pub c_string : List ℕ → List ℕ
c_string [] = []
c_string (b ∷ s) = let rest = c_string s in if b == 0 then [] else b ∷ rest

abbrev pub NoNul : List ℕ → Type 0
NoNul = All (λ b. b ≢ 0)

pub c_string-append : (s junk : List ℕ) → NoNul s → c_string (s ++ 0 ∷ junk) ≡ s
unfolding c_string
c_string-append [] junk h = refl
c_string-append (b ∷ s) junk (hb, h) = ground (arith, c_string-append s junk h)

-- strcmp(a, b) == 0
unfoldable pub same_text : List ℕ → List ℕ → Bool
same_text [] [] = true
same_text [] (b ∷ t) = false
same_text (a ∷ s) [] = false
same_text (a ∷ s) (b ∷ t) = a == b && same_text s t

pub same_text_refl : (s : List ℕ) → same_text s s ≡ true
unfolding same_text
same_text_refl [] = refl
same_text_refl (a ∷ s) = ground (arith, same_text_refl s)

pub eq_of_same_text : (s t : List ℕ) → same_text s t ≡ true → s ≡ t
unfolding same_text
eq_of_same_text [] [] h = refl
eq_of_same_text [] (b ∷ t) h = cc
eq_of_same_text (a ∷ s) [] h = cc
eq_of_same_text (a ∷ s) (b ∷ t) h = ground (arith, eq_of_same_text s t)

-- ===== src/Files/Capital.antt =====
-- capital.c: a copy of a file with capital letters.
use cn_lab.Base.{
  ℕ, ◌+◌, ◌-◌, ◌≡◌, refl, ap, ◌∙◌, Option, none, some, List, [], ◌∷◌, ◌++◌, Bool, true, ◌&&◌, ◌==◌,
  leb, if◌then◌else◌, map, append_assoc, arith,
}

unfoldable pub capitalize : ℕ → ℕ
capitalize c = if leb b'a' c && leb c b'z' then c - b'a' + b'A' else c

-- The loop of main, by what firstletter holds.
unfoldable pub capital_loop : Bool → List ℕ → List ℕ
capital_loop firstletter [] = b'\n' ∷ []
capital_loop firstletter (c ∷ f1) =
    let space = capital_loop true f1 in
    let other = capital_loop firstletter f1 in
    if c == 32 then c ∷ space else (if firstletter then capitalize c else c) ∷ other

-- What main writes to f2.txt, if it can open f1.txt.
unfoldable pub capital : Option (List ℕ) → Option (List ℕ)
capital none = none
capital (some f1) = some (capital_loop true f1)

capitalize_space : (c : ℕ) → (c == 32) ≡ true → capitalize c ≡ c
unfolding capitalize
capitalize_space c h = ground arith

capital_loop_lem : (f1 : List ℕ) → capital_loop true f1 ≡ map capitalize f1 ++ b'\n' ∷ []
unfolding capital_loop
capital_loop_lem [] = refl
capital_loop_lem (c ∷ f1) = ground (arith, capital_loop_lem f1, capitalize_space c)

capitalize-capitalize : (c : ℕ) → capitalize (capitalize c) ≡ capitalize c
unfolding capitalize
capitalize-capitalize c = ground arith

map-capitalize :
    (f1 : List ℕ)
    → map capitalize (map capitalize f1 ++ b'\n' ∷ []) ≡ map capitalize f1 ++ b'\n' ∷ []
map-capitalize [] = unfold capitalize in refl
map-capitalize (c ∷ f1) = grind (arith, capitalize-capitalize c, map-capitalize f1)

-- capital.c turns every small letter into a capital one, not only the first of each word, and adds a
-- newline; a second run changes no letter.
pub capital-everywhere :
    (f1 : List ℕ)
    → (capital (some f1) ≡ some (map capitalize f1 ++ b'\n' ∷ []))
      × (capital (capital (some f1)) ≡ some (map capitalize f1 ++ b'\n' ∷ b'\n' ∷ []))
unfolding capital
capital-everywhere f1 =
    let twice : (map capitalize f1 ++ b'\n' ∷ []) ++ b'\n' ∷ []
        ≡ map capitalize f1 ++ b'\n' ∷ b'\n' ∷ [] =
      append_assoc (map capitalize f1) (b'\n' ∷ []) (b'\n' ∷ []) in
    (
      ap some (capital_loop_lem f1),
      ap some (
          ap (capital_loop true) (capital_loop_lem f1)
          ∙ capital_loop_lem (map capitalize f1 ++ b'\n' ∷ [])
          ∙ ap (λ l. l ++ b'\n' ∷ []) (map-capitalize f1)
          ∙ twice),
    )

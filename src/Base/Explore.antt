-- ===== src/Base/Explore.antt =====
-- Systems of processes that run in any order: what a run can reach, and how a finite set of
-- states that is closed under every move shows a property of all runs.
use cn_lab.Base.Tests.{ltb, ltb→lt, Option-cases}
use cn_lab.Base.Packet.{same_text, eq_of_same_text}
use Prim.Native.Nat.{ℕ, zero, suc, ◌+◌, ◌*◌, ◌%◌, ◌≤◌, ◌<◌, compare, Ordering}
use mathlib.Core.Option.{Option, none, some, some_inj}
use cn_lab.Base.Lists.{get_elem?}
use mathlib.Core.Bool.{Bool, true, false, ◌&&◌, ◌||◌}
use mathlib.Core.List.{List, [], ◌∷◌, ◌++◌, Memᴰ}
use mathlib.Core.List.Memᴰ
use mathlib.Core.Path.{◌≡◌, refl, ap, ◌∙◌, sym, subst}
use mathlib.Core.Logic.{◌⊎◌, inl, inr}
use native.Mathlib.Omega.{arith}

pub &&-fst : (a b : Bool) → (a && b) ≡ true → a ≡ true
&&-fst true b h = refl
&&-fst false b h = h

pub &&-snd : (a b : Bool) → (a && b) ≡ true → b ≡ true
&&-snd true b h = h
&&-snd false b h = ground arith

pub ||-cases : (a b : Bool) → (a || b) ≡ true → (a ≡ true) ⊎ (b ≡ true)
||-cases true b h = inl refl
||-cases false b h = inr h

-- A search tree of states, ordered by a number that is computed from their keys.
pub data Tree {ℓ} (S : Type ℓ) : Type ℓ where
  leaf : Tree S
  node : Tree S → ℕ → S → Tree S → Tree S

pub data InTree {ℓ} {S : Type ℓ} (s : S) : Tree S → Type ℓ where
  at : {l r : Tree S} {h : ℕ} {x : S} → s ≡ x → InTree s (node l h x r)
  in_left : {l r : Tree S} {h : ℕ} {x : S} → InTree s l → InTree s (node l h x r)
  in_right : {l r : Tree S} {h : ℕ} {x : S} → InTree s r → InTree s (node l h x r)

-- Which part of a node a search finds a state in.
in_node {ℓ} :
    {S : Type ℓ} {s x : S} {l r : Tree S} {k : ℕ} (o : Ordering) {a b c : Bool}
    → (a ≡ true → InTree s l)
    → (b ≡ true → InTree s r)
    → (c ≡ true → s ≡ x)
    → elim o [ Ordering.lt ↦ a | Ordering.gt ↦ b | Ordering.eq ↦ c ] ≡ true
    → InTree s (node l k x r)
in_node Ordering.lt f g e h = in_left (f h)
in_node Ordering.gt f g e h = in_right (g h)
in_node Ordering.eq f g e h = at (e h)

module _ {ℓ} {S : Type ℓ} where
  abbrev pub every : (S → Bool) → List S → Bool
  every p [] = true
  every p (s ∷ xs) = p s && every p xs

  pub every-Memᴰ : (p : S → Bool) (xs : List S) {s : S} → every p xs ≡ true → Memᴰ s xs → p s ≡ true
  every-Memᴰ p [] h m = absurd (Memᴰ.not-nil m)
  every-Memᴰ p (x ∷ xs) {s} h m = elim (Memᴰ.cases_cons m) [
    | inl e ↦ ap p e ∙ &&-fst (p x) (every p xs) h
    | inr later ↦ every-Memᴰ p xs (&&-snd (p x) (every p xs) h) later
  ]

  abbrev pub every_in : (S → Bool) → Tree S → Bool
  every_in p leaf = true
  every_in p (node l h x r) = p x && (every_in p l && every_in p r)

  pub every-InTree :
      (p : S → Bool) (t : Tree S) {s : S} → every_in p t ≡ true → InTree s t → p s ≡ true
  every-InTree p leaf h m = elim m [ ]
  every-InTree p (node l k x r) h (at e) = ap p e ∙ &&-fst (p x) (every_in p l && every_in p r) h
  every-InTree p (node l k x r) h (in_left m) =
      every-InTree p l
        (&&-fst (every_in p l) (every_in p r) (&&-snd (p x) (every_in p l && every_in p r) h)) m
  every-InTree p (node l k x r) h (in_right m) =
      every-InTree p r
        (&&-snd (every_in p l) (every_in p r) (&&-snd (p x) (every_in p l && every_in p r) h)) m

-- Equality of the keys that tell states apart.
unfoldable pub same_texts : List (List ℕ) → List (List ℕ) → Bool
same_texts [] [] = true
same_texts [] (b ∷ t) = false
same_texts (a ∷ s) [] = false
same_texts (a ∷ s) (b ∷ t) = same_text a b && same_texts s t

eq_of_same_texts : (s t : List (List ℕ)) → same_texts s t ≡ true → s ≡ t
unfolding same_texts
eq_of_same_texts [] [] h = refl
eq_of_same_texts [] (b ∷ t) h = cc
eq_of_same_texts (a ∷ s) [] h = cc
eq_of_same_texts (a ∷ s) (b ∷ t) h =
    let e = eq_of_same_text a b (&&-fst (same_text a b) (same_texts s t) h) in
    let f = eq_of_same_texts s t (&&-snd (same_text a b) (same_texts s t) h) in cc

-- The number that orders the tree.
abbrev hash_list : ℕ → List ℕ → ℕ
hash_list h [] = h
hash_list h (a ∷ s) = hash_list ((h * 31 + a + 7) % 16777213) s

abbrev hash_texts : ℕ → List (List ℕ) → ℕ
hash_texts h [] = h
hash_texts h (a ∷ s) = hash_texts (hash_list (h * 31) a) s

abbrev hash : List (List ℕ) → ℕ
hash k = hash_texts 1 k * 40503 % 16777213

-- A system: the states that one move of some process leads to.
module _ {ℓ} {S : Type ℓ} (moves : S → List S) where
  -- What n moves from `start` can lead to.
  pub data Run (start : S) : ℕ → S → Type ℓ where
    here : Run start 0 start
    later : {n : ℕ} {s t : S} → Run start n s → Memᴰ t (moves s) → Run start (suc n) t

  module _ (key : S → List (List ℕ)) where
    abbrev member_at : ℕ → S → Tree S → Bool
    member_at h s leaf = false
    member_at h s (node l k x r) = elim (compare h k) [
      | Ordering.lt ↦ member_at h s l
      | Ordering.gt ↦ member_at h s r
      | Ordering.eq ↦ same_texts (key s) (key x)
    ]

    abbrev pub member : S → Tree S → Bool
    member s t = member_at (hash (key s)) s t

    abbrev insert_at : ℕ → S → Tree S → Tree S
    insert_at h s leaf = node leaf h s leaf
    insert_at h s (node l k x r) = elim (compare h k) [
      | Ordering.lt ↦ node (insert_at h s l) k x r
      | _ ↦ node l k x (insert_at h s r)
    ]

    -- A depth-first search; the fuel bounds the number of states it looks at.
    abbrev pub explore : ℕ → List S → Tree S → Tree S
    explore zero stack seen = seen
    explore (suc n) [] seen = seen
    explore (suc n) (s ∷ stack) seen = elim (member s seen) [
      | true ↦ explore n stack seen
      | false ↦ explore n (moves s ++ stack) (insert_at (hash (key s)) s seen)
    ]

    abbrev pub is_closed : Tree S → Bool
    is_closed xs = every_in (λ s. every (λ t. member t xs) (moves s)) xs

    module _ (decode : List (List ℕ) → S) (decode-key : (s : S) → decode (key s) ≡ s) where
      eq_of_same_key : (s t : S) → same_texts (key s) (key t) ≡ true → s ≡ t
      eq_of_same_key s t h =
          sym (decode-key s) ∙ ap decode (eq_of_same_texts (key s) (key t) h) ∙ decode-key t

      member_at-InTree : (h : ℕ) (s : S) (t : Tree S) → member_at h s t ≡ true → InTree s t
      member_at-InTree h s leaf e = absurd (cc)
      member_at-InTree h s (node l k x r) e =
          in_node (compare h k) (member_at-InTree h s l) (member_at-InTree h s r)
            (eq_of_same_key s x) e

      pub run-InTree :
          (xs : Tree S) {start s : S} {n : ℕ}
          → member start xs ≡ true
          → is_closed xs ≡ true
          → Run start n s
          → InTree s xs
      run-InTree xs {start} hs hc here = member_at-InTree (hash (key start)) start xs hs
      run-InTree xs hs hc (later {s} {t} r m) = member_at-InTree (hash (key t)) t xs (
          every-Memᴰ (λ u. member u xs) (moves s)
            (every-InTree (λ u. every (λ v. member v xs) (moves u)) xs hc (run-InTree xs hs hc r))
            m)

      pub run-every :
          (p : S → Bool) (xs : Tree S) {start s : S} {n : ℕ}
          → member start xs ≡ true
          → is_closed xs ≡ true
          → every_in p xs ≡ true
          → Run start n s
          → p s ≡ true
      run-every p xs hs hc hp r = every-InTree p xs hp (run-InTree xs hs hc r)

      -- A measure that grows with every move bounds the number of moves.
      pub run-measure :
          (measure : S → ℕ) (xs : Tree S) {start s : S} {n : ℕ}
          → member start xs ≡ true
          → is_closed xs ≡ true
          → every_in (λ u. every (λ v. ltb (measure u) (measure v)) (moves u)) xs ≡ true
          → Run start n s
          → n + measure start ≤ measure s
      run-measure measure xs hs hc hp here = omega arith
      run-measure measure xs hs hc hp (later {s} {t} r m) =
          let grows : measure s < measure t = ltb→lt (measure s) (measure t) (
            every-Memᴰ (λ v. ltb (measure s) (measure v)) (moves s)
              (run-every (λ u. every (λ v. ltb (measure u) (measure v)) (moves u)) xs hs hc hp r)
              m) in
          omega (arith, run-measure measure xs hs hc hp r, grows)

  -- The run in which each number chooses among the moves that are possible.
  abbrev pub play : List ℕ → S → Option S
  play [] s = some s
  play (c ∷ choices) s = elim (get_elem? (moves s) c) [ none ↦ none | some t ↦ play choices t ]

  Memᴰ-get_elem? : (xs : List S) (c : ℕ) {t : S} → get_elem? xs c ≡ some t → Memᴰ t xs
  Memᴰ-get_elem? [] c h = absurd (cc)
  Memᴰ-get_elem? (x ∷ xs) zero h = Memᴰ.head (sym (some_inj.0 h))
  Memᴰ-get_elem? (x ∷ xs) (suc c) h = Memᴰ.tail (Memᴰ-get_elem? xs c h)

  pub run-play :
      {start s t : S} {n : ℕ} (choices : List ℕ)
      → Run start n s
      → play choices s ≡ some t
      → (k : ℕ) × Run start k t
  run-play {start} {n} [] r h = (n, subst (λ u. Run start n u) (some_inj.0 h) r)
  run-play {s} {t} (c ∷ choices) r h = elim (Option-cases (get_elem? (moves s) c)) [
    | inl e ↦
        let f : none ≡ some t =
          sym (ap (λ o. elim o [ none ↦ none | some v ↦ play choices v ]) e) ∙ h in
        absurd (cc)
    | inr (u, e) ↦
        let f : play choices u ≡ some t =
          sym (ap (λ o. elim o [ none ↦ none | some v ↦ play choices v ]) e) ∙ h in
        run-play {s = u} choices (later r (Memᴰ-get_elem? (moves s) c e)) f
  ]

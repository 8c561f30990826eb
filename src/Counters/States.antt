-- ===== src/Counters/States.antt =====
-- The states that the two processes of 12-1-22/q4 can reach.
use cn_lab.Base.{ℕ, ◌≡◌, refl, List, [], ◌∷◌, true, get_or}
use cn_lab.Base.Packet.{same_text}
use cn_lab.Base.Explore.{Tree, leaf, explore, is_closed, member, same_texts}
use cn_lab.Counters.{State, Place1, Place2, start, moves, move1, move2}

abbrev pub places1 : List Place1
places1 =
    Place1.set_x ∷ Place1.set_y ∷ Place1.write_x ∷ Place1.post_s1 ∷ Place1.test_x ∷ Place1.wait_s2
    ∷ Place1.read_y ∷ Place1.ended ∷ []

abbrev pub places2 : List Place2
places2 =
    Place2.set_x ∷ Place2.set_y ∷ Place2.write_y ∷ Place2.post_s2 ∷ Place2.test_x ∷ Place2.wait_s1
    ∷ Place2.read_x ∷ Place2.ended ∷ []

abbrev pub place1_number : Place1 → ℕ
place1_number Place1.set_x = 0
place1_number Place1.set_y = 1
place1_number Place1.write_x = 2
place1_number Place1.post_s1 = 3
place1_number Place1.test_x = 4
place1_number Place1.wait_s2 = 5
place1_number Place1.read_y = 6
place1_number Place1.ended = 7

abbrev pub place2_number : Place2 → ℕ
place2_number Place2.set_x = 0
place2_number Place2.set_y = 1
place2_number Place2.write_y = 2
place2_number Place2.post_s2 = 3
place2_number Place2.test_x = 4
place2_number Place2.wait_s1 = 5
place2_number Place2.read_x = 6
place2_number Place2.ended = 7

abbrev pub place1 : ℕ → Place1
place1 k = get_or places1 k Place1.ended

abbrev pub place2 : ℕ → Place2
place2 k = get_or places2 k Place2.ended

pub place1-number : (p : Place1) → place1 (place1_number p) ≡ p
place1-number Place1.set_x = refl
place1-number Place1.set_y = refl
place1-number Place1.write_x = refl
place1-number Place1.post_s1 = refl
place1-number Place1.test_x = refl
place1-number Place1.wait_s2 = refl
place1-number Place1.read_y = refl
place1-number Place1.ended = refl

pub place2-number : (p : Place2) → place2 (place2_number p) ≡ p
place2-number Place2.set_x = refl
place2-number Place2.set_y = refl
place2-number Place2.write_y = refl
place2-number Place2.post_s2 = refl
place2-number Place2.test_x = refl
place2-number Place2.wait_s1 = refl
place2-number Place2.read_x = refl
place2-number Place2.ended = refl

abbrev pub key : State → List (List ℕ)
key s =
    (place1_number s.place1 ∷ place2_number s.place2 ∷ s.s1 ∷ s.s2 ∷ [])
    ∷ (s.x ∷ s.y ∷ s.read1 ∷ s.read2 ∷ [])
    ∷ []

abbrev pub decode : List (List ℕ) → State
decode ((p ∷ q ∷ a ∷ b ∷ []) ∷ (x ∷ y ∷ r ∷ r' ∷ []) ∷ []) = record {
  x = x;
  y = y;
  s1 = a;
  s2 = b;
  place1 = place1 p;
  read1 = r;
  place2 = place2 q;
  read2 = r';
}
decode others = start

pub decode-key : (s : State) → decode (key s) ≡ s
decode-key s =
    λ i. record s { place1 = place1-number s.place1 i; place2 = place2-number s.place2 i }

abbrev pub states : Tree State
states = explore moves key 1000 (start ∷ []) leaf

pub start-states : member moves key start states ≡ true
unfolding moves move1 move2 same_text same_texts
start-states = refl

pub states-closed : is_closed moves key states ≡ true
unfolding moves move1 move2 same_text same_texts
states-closed = refl

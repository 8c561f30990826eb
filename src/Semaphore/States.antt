-- ===== src/Semaphore/States.antt =====
-- The states that the two processes can reach, as a search tree.
use cn_lab.Base.{ℕ, ◌≡◌, refl, List, [], ◌∷◌, Bool, true, false, ◌==◌, get_or}
use cn_lab.Base.Packet.{same_text}
use cn_lab.Base.Explore.{Tree, leaf, explore, is_closed, member, same_texts}
use cn_lab.Semaphore.{
  State, Place1, Place2, start, moves, move1, move2, semop_zero, semop_decrement,
}

abbrev pub place1_number : Place1 → ℕ
place1_number Place1.set_s2 = 0
place1_number Place1.test_x = 1
place1_number Place1.strcpy_x = 2
place1_number Place1.strcat_x = 3
place1_number Place1.post_s1 = 4
place1_number Place1.wait_s2 = 5
place1_number Place1.read_y = 6
place1_number Place1.remove_set = 8
place1_number Place1.exited = 9
place1_number Place1.failed = 7

abbrev pub place2_number : Place2 → ℕ
place2_number Place2.set_s1 = 0
place2_number Place2.strcpy_y = 1
place2_number Place2.strcat_y = 2
place2_number Place2.post_s2 = 3
place2_number Place2.test_x = 4
place2_number Place2.wait_s1 = 5
place2_number Place2.read_x = 6
place2_number Place2.remove_set = 8
place2_number Place2.exited = 9
place2_number Place2.failed = 7

abbrev pub place1 : ℕ → Place1
place1 k =
    get_or
      (Place1.set_s2 ∷ Place1.test_x ∷ Place1.strcpy_x ∷ Place1.strcat_x ∷ Place1.post_s1
        ∷ Place1.wait_s2 ∷ Place1.read_y ∷ Place1.failed ∷ Place1.remove_set ∷ Place1.exited ∷ [])
      k Place1.failed

pub place1-number : (p : Place1) → place1 (place1_number p) ≡ p
place1-number Place1.set_s2 = refl
place1-number Place1.test_x = refl
place1-number Place1.strcpy_x = refl
place1-number Place1.strcat_x = refl
place1-number Place1.post_s1 = refl
place1-number Place1.wait_s2 = refl
place1-number Place1.read_y = refl
place1-number Place1.failed = refl
place1-number Place1.remove_set = refl
place1-number Place1.exited = refl

abbrev pub place2 : ℕ → Place2
place2 k =
    get_or
      (Place2.set_s1 ∷ Place2.strcpy_y ∷ Place2.strcat_y ∷ Place2.post_s2 ∷ Place2.test_x
        ∷ Place2.wait_s1 ∷ Place2.read_x ∷ Place2.failed ∷ Place2.remove_set ∷ Place2.exited ∷ [])
      k Place2.failed

pub place2-number : (p : Place2) → place2 (place2_number p) ≡ p
place2-number Place2.set_s1 = refl
place2-number Place2.strcpy_y = refl
place2-number Place2.strcat_y = refl
place2-number Place2.post_s2 = refl
place2-number Place2.test_x = refl
place2-number Place2.wait_s1 = refl
place2-number Place2.read_x = refl
place2-number Place2.failed = refl
place2-number Place2.remove_set = refl
place2-number Place2.exited = refl

abbrev bit : Bool → ℕ
bit true = 1
bit false = 0

bit-one : (b : Bool) → (bit b == 1) ≡ b
bit-one true = refl
bit-one false = refl

abbrev pub key : State → List (List ℕ)
key s =
    (place1_number s.place1 ∷ place2_number s.place2 ∷ s.s1 ∷ s.s2 ∷ bit s.is_removed ∷ [])
    ∷ s.x
    ∷ s.y
    ∷ s.local1
    ∷ s.local2
    ∷ []

abbrev pub decode : List (List ℕ) → State
decode ((p ∷ q ∷ a ∷ b ∷ r ∷ []) ∷ x ∷ y ∷ l ∷ m ∷ []) = record {
  x = x;
  y = y;
  s1 = a;
  s2 = b;
  is_removed = r == 1;
  place1 = place1 p;
  local1 = l;
  place2 = place2 q;
  local2 = m;
}
decode others = start

pub decode-key : (s : State) → decode (key s) ≡ s
decode-key s = λ i. record s {
  is_removed = bit-one s.is_removed i;
  place1 = place1-number s.place1 i;
  place2 = place2-number s.place2 i;
}

abbrev pub states : Tree State
states = explore moves key 2000 (start ∷ []) leaf

-- Every move from a state of the tree leads to a state of the tree.
pub start-states : member moves key start states ≡ true
unfolding moves move1 move2 same_text semop_zero semop_decrement same_texts
start-states = refl

pub states-closed : is_closed moves key states ≡ true
unfolding moves move1 move2 same_text semop_zero semop_decrement same_texts
states-closed = refl

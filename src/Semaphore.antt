-- ===== src/Semaphore.antt =====
-- The two processes of practice/semaphore_sharedmem/class_example: p1.c appends 'A' to what it read
-- from y and writes it to x, p2.c appends 'B' to what it read from x and writes it to y, and a set
-- of two System V semaphores makes them take turns. One function per process gives its next move.
mod States
pub mod Turns
mod Samples
use cn_lab.Base.{
  ℕ, ◌+◌, ◌-◌, ◌*◌, Option, none, some, List, [], ◌∷◌, ◌++◌, Bool, true, false, ◌&&◌, ◌==◌, ltb,
  if◌then◌else◌, length,
}
use cn_lab.Base.Packet.{same_text}

-- Where p1.c stands in its loop: each name is the call that comes next.
pub data Place1 : Type 0 where
  test_x strcpy_x strcat_x post_s1 wait_s2 read_y set_s2 remove_set exited failed : Place1

-- The same for p2.c.
pub data Place2 : Type 0 where
  test_x wait_s1 read_x set_s1 strcpy_y strcat_y post_s2 remove_set exited failed : Place2

-- The two texts in shared memory, the two semaphores, whether the set has been removed, and of
-- each process its place and its localcopy.
pub record State : Type 0 where
  pub x : List ℕ
  pub y : List ℕ
  pub s1 : ℕ
  pub s2 : ℕ
  pub is_removed : Bool
  pub place1 : Place1
  pub local1 : List ℕ
  pub place2 : Place2
  pub local2 : List ℕ

-- Both processes have initialised the memory and the semaphores and enter their loops.
abbrev pub start : State
start = record {
  x = [];
  y = [];
  s1 = 1;
  s2 = 1;
  is_removed = false;
  place1 = Place1.test_x;
  local1 = [];
  place2 = Place2.test_x;
  local2 = [];
}

abbrev pub limit : ℕ
limit = 5

-- semop on a semaphore that holds the given value. It fails once the set is removed, and waits
-- where the operation is not possible.
pub data Semop : Type 0 where
  fails waits : Semop
  done : (new : ℕ) → Semop

-- sem_op = -1
unfoldable pub semop_decrement : Bool → ℕ → Semop
semop_decrement is_removed s =
    if is_removed then Semop.fails else if s == 0 then Semop.waits else Semop.done (s - 1)

-- sem_op = 0
unfoldable pub semop_zero : Bool → ℕ → Semop
semop_zero is_removed s =
    if is_removed then Semop.fails else if s == 0 then Semop.done 0 else Semop.waits

-- The next move of p1.c at its place; `none` if it waits or has ended.
unfoldable pub move1 : Place1 → State → Option State
move1 Place1.test_x s =
    some
      (record s { place1 = if ltb limit (length s.x) then Place1.remove_set else Place1.strcpy_x })
move1 Place1.strcpy_x s = some (record s { x = s.local1; place1 = Place1.strcat_x })
move1 Place1.strcat_x s = some (record s { x = s.x ++ 65 ∷ []; place1 = Place1.post_s1 })
move1 Place1.post_s1 s = elim (semop_decrement s.is_removed s.s1) [
  | Semop.fails ↦ some (record s { place1 = Place1.failed })
  | Semop.waits ↦ none
  | Semop.done new ↦ some (record s { s1 = new; place1 = Place1.wait_s2 })
]
move1 Place1.wait_s2 s = elim (semop_zero s.is_removed s.s2) [
  | Semop.fails ↦ some (record s { place1 = Place1.failed })
  | Semop.waits ↦ none
  | Semop.done new ↦ some (record s { s2 = new; place1 = Place1.read_y })
]
move1 Place1.read_y s = some (record s { local1 = s.y; place1 = Place1.set_s2 })
move1 Place1.set_s2 s = some (
    if s.is_removed
    then record s { place1 = Place1.failed }
    else record s { s2 = 1; place1 = Place1.test_x })
move1 Place1.remove_set s = some (record s { is_removed = true; place1 = Place1.exited })
move1 Place1.exited s = none
move1 Place1.failed s = none

-- The next move of p2.c.
unfoldable pub move2 : Place2 → State → Option State
move2 Place2.test_x s =
    some
      (record s { place2 = if ltb limit (length s.x) then Place2.remove_set else Place2.wait_s1 })
move2 Place2.wait_s1 s = elim (semop_zero s.is_removed s.s1) [
  | Semop.fails ↦ some (record s { place2 = Place2.failed })
  | Semop.waits ↦ none
  | Semop.done new ↦ some (record s { s1 = new; place2 = Place2.read_x })
]
move2 Place2.read_x s = some (record s { local2 = s.x; place2 = Place2.set_s1 })
move2 Place2.set_s1 s = some (
    if s.is_removed
    then record s { place2 = Place2.failed }
    else record s { s1 = 1; place2 = Place2.strcpy_y })
move2 Place2.strcpy_y s = some (record s { y = s.local2; place2 = Place2.strcat_y })
move2 Place2.strcat_y s = some (record s { y = s.y ++ 66 ∷ []; place2 = Place2.post_s2 })
move2 Place2.post_s2 s = elim (semop_decrement s.is_removed s.s2) [
  | Semop.fails ↦ some (record s { place2 = Place2.failed })
  | Semop.waits ↦ none
  | Semop.done new ↦ some (record s { s2 = new; place2 = Place2.test_x })
]
move2 Place2.remove_set s = some (record s { is_removed = true; place2 = Place2.exited })
move2 Place2.exited s = none
move2 Place2.failed s = none

abbrev options : Option State → List State
options none = []
options (some s) = s ∷ []

-- The scheduler runs either process.
unfoldable pub moves : State → List State
moves s = options (move1 s.place1 s) ++ options (move2 s.place2 s)

-- ===== src/Counters.antt =====
-- The two processes of 12-1-22/q4: p1.c sets x to y + 1 and posts S1, p2.c waits for it, sets y to
-- x + 1 and posts S2, until x has reached the limit. Both set x and y to 1 when they start, which
-- may be at any time. One function per process gives its next move; reading a shared int and writing
-- the other are two moves.
mod States
pub mod Ends
mod Samples
use cn_lab.Base.{ℕ, ◌+◌, ◌-◌, ◌*◌, Option, none, some, List, [], ◌∷◌, ◌++◌, leb, if◌then◌else◌}

-- Where p1.c stands: each name is the access or the call that comes next.
pub data Place1 : Type 0 where
  set_x set_y read_y write_x post_s1 test_x wait_s2 ended : Place1

-- The same for p2.c.
pub data Place2 : Type 0 where
  set_x set_y test_x wait_s1 read_x write_y post_s2 ended : Place2

-- The shared ints, the semaphores, and of each process its place and the int that it has read.
pub record State : Type 0 where
  pub x : ℕ
  pub y : ℕ
  pub s1 : ℕ
  pub s2 : ℕ
  pub place1 : Place1
  pub read1 : ℕ
  pub place2 : Place2
  pub read2 : ℕ

-- A new shared memory segment is filled with zeros, and the semaphores are opened with 0.
abbrev pub start : State
start = record {
  x = 0;
  y = 0;
  s1 = 0;
  s2 = 0;
  place1 = Place1.set_x;
  read1 = 0;
  place2 = Place2.set_x;
  read2 = 0;
}

abbrev pub limit : ℕ
limit = 5

-- The next move of p1.c; `none` where it waits or has ended its loop.
unfoldable pub move1 : Place1 → State → Option State
move1 Place1.set_x s = some (record s { x = 1; place1 = Place1.set_y })
move1 Place1.set_y s = some (record s { y = 1; place1 = Place1.read_y })
move1 Place1.read_y s = some (record s { read1 = s.y; place1 = Place1.write_x })
move1 Place1.write_x s = some (record s { x = s.read1 + 1; place1 = Place1.post_s1 })
move1 Place1.post_s1 s = some (record s { s1 = s.s1 + 1; place1 = Place1.test_x })
move1 Place1.test_x s =
    some (record s { place1 = if leb limit s.x then Place1.ended else Place1.wait_s2 })
move1 Place1.wait_s2 s =
    if leb 1 s.s2 then some (record s { s2 = s.s2 - 1; place1 = Place1.read_y }) else none
move1 Place1.ended s = none

-- The next move of p2.c.
unfoldable pub move2 : Place2 → State → Option State
move2 Place2.set_x s = some (record s { x = 1; place2 = Place2.set_y })
move2 Place2.set_y s = some (record s { y = 1; place2 = Place2.test_x })
move2 Place2.test_x s =
    some (record s { place2 = if leb limit s.x then Place2.ended else Place2.wait_s1 })
move2 Place2.wait_s1 s =
    if leb 1 s.s1 then some (record s { s1 = s.s1 - 1; place2 = Place2.read_x }) else none
move2 Place2.read_x s = some (record s { read2 = s.x; place2 = Place2.write_y })
move2 Place2.write_y s = some (record s { y = s.read2 + 1; place2 = Place2.post_s2 })
move2 Place2.post_s2 s = some (record s { s2 = s.s2 + 1; place2 = Place2.test_x })
move2 Place2.ended s = none

abbrev pub options : Option State → List State
options none = []
options (some s) = s ∷ []

-- The scheduler runs either process.
unfoldable pub moves : State → List State
moves s = options (move1 s.place1 s) ++ options (move2 s.place2 s)

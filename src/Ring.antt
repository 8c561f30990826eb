-- ===== src/Ring.antt =====
-- The four processes of 12-1-22/circular_signal, p1.c to p4.c. They learn one another's process ids
-- over a message queue and from the senders of signals, then pass SIGUSR1 around three times from p1
-- to p4, SIGUSR2 back three times, and a last SIGUSR2 ends them. Each main function is the list of
-- its calls; a signal is a flag of the process until its handler runs.
pub mod States
pub mod Signals
pub mod Rounds
mod Samples
use cn_lab.Base.{
  ℕ, zero, suc, ◌+◌, ◌-◌, Option, none, some, List, [], ◌∷◌, ◌++◌, Bool, true, false, not, ◌&&◌,
  ◌||◌, ◌==◌, ltb, leb, if◌then◌else◌, get_elem?,
}

pub data Signal : Type 0 where
  sigusr1 sigusr2 : Signal

-- The calls of the main functions. `next` is the process whose id comes in a message, p2pid in p1.c,
-- p3pid in p2.c, p4pid in p3.c and p1pid in p4.c; `prev` is the one that sends the first SIGUSR1.
pub data Call : Type 0 where
  send_own_id send_prev_id receive : (type : ℕ) → Call
  kill_next kill_prev : Signal → Call
  while_no_prev : Call  -- the test of while(prev == -1)
  pause_in_while : Call  -- pause() as its body
  pause_once : Call
  spin : Call  -- while(1){}
  return_main : Call

unfoldable pub times : ℕ → List Call → List Call
times zero calls = []
times (suc n) calls = calls ++ times n calls

-- main of p1.c
unfoldable pub main1 : List Call
main1 =
    receive 2
      ∷ kill_next sigusr1
      ∷ while_no_prev
      ∷ pause_in_while
      ∷ times 3 (kill_next sigusr1 ∷ pause_once ∷ [])
    ++ times 3 (kill_prev sigusr2 ∷ pause_once ∷ [])
    ++ kill_next sigusr2 ∷ return_main ∷ []

-- main of p2.c
unfoldable pub main2 : List Call
main2 =
    send_own_id 2
    ∷ while_no_prev
    ∷ pause_in_while
    ∷ receive 3
    ∷ send_prev_id 1
    ∷ kill_next sigusr1
    ∷ spin
    ∷ []

-- main of p3.c
unfoldable pub main3 : List Call
main3 = send_own_id 3 ∷ while_no_prev ∷ pause_in_while ∷ receive 4 ∷ kill_next sigusr1 ∷ spin ∷ []

-- main of p4.c
unfoldable pub main4 : List Call
main4 = send_own_id 4 ∷ while_no_prev ∷ pause_in_while ∷ receive 1 ∷ kill_next sigusr1 ∷ spin ∷ []

-- A process: the index of its next call, the counters of its handlers, the sender of a pending
-- signal (0 if none is pending), the ids that it knows (0 if it does not), and whether it sleeps in
-- pause() and has not ended.
pub record Process : Type 0 where
  pub place : ℕ
  pub usr1_count : ℕ
  pub usr2_count : ℕ
  pub pending1 : ℕ
  pub pending2 : ℕ
  pub prev : ℕ
  pub next : ℕ
  pub is_asleep : Bool
  pub is_alive : Bool

-- The processes, whose ids are 1 to 4, and the message queue as types and ids. `is_merged` is set
-- when a signal is sent to a process that has the same one pending, and so is lost; `is_stray` when
-- a process signals an id that it does not know.
pub record Ring : Type 0 where
  pub p1 : Process
  pub p2 : Process
  pub p3 : Process
  pub p4 : Process
  pub queue : List (ℕ × ℕ)
  pub is_merged : Bool
  pub is_stray : Bool

abbrev pub fresh : Process
fresh = record {
  place = 0;
  usr1_count = 0;
  usr2_count = 0;
  pending1 = 0;
  pending2 = 0;
  prev = 0;
  next = 0;
  is_asleep = false;
  is_alive = true;
}

-- All have installed their handlers.
abbrev pub started : Ring
started = record {
  p1 = fresh;
  p2 = fresh;
  p3 = fresh;
  p4 = fresh;
  queue = [];
  is_merged = false;
  is_stray = false;
}

abbrev pub get : ℕ → Ring → Process
get n s = if n == 1 then s.p1 else if n == 2 then s.p2 else if n == 3 then s.p3 else s.p4

abbrev pub put : ℕ → Process → Ring → Ring
put n p s =
    if n == 1
    then record s { p1 = p }
    else if n == 2
    then record s { p2 = p }
    else if n == 3
    then record s { p3 = p }
    else record s { p4 = p }

abbrev pub main_of : ℕ → List Call
main_of n = if n == 1 then main1 else if n == 2 then main2 else if n == 3 then main3 else main4

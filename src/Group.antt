-- ===== src/Group.antt =====
-- The four processes of 12-1-22/group_signal, p1.c to p4.c: they find one another as the signal ring
-- does, p1.c calls setpgid for all four and tells each other process the group's id, and each of these
-- sends SIGUSR2 to the group. The main functions are lists of their calls.
mod States
pub mod Moves
pub mod Runs
mod Samples
use cn_lab.Base.{ℕ, Option, List, [], ◌∷◌, ◌++◌, Bool, true, false, ◌==◌, if◌then◌else◌}

-- The variables that a process keeps an id in: p3pid, p4pid or p1pid from a message; the sender of
-- SIGUSR1, which is p4pid in p1.c; p3pid in p1.c; and grouppid.
pub data Slot : Type 0 where
  next prev third group nowhere : Slot

-- The calls of the main functions.
pub data Call : Type 0 where
  msgsnd_own msgsnd_prev msgsnd_group : (type : ℕ) → Call
  msgrcv : (type : ℕ) → Slot → Call
  kill_next : Call
  while_no_prev pause : Call
  set_group_own : Call  -- grouppid = p1pid
  setpgid : Slot → Call
  setpgid_own : Call
  killpg : Call
  scanf remove_queue return_main : Call

-- main of p1.c
unfoldable pub main1 : List Call
main1 =
    msgrcv 2 next
    ∷ kill_next
    ∷ while_no_prev
    ∷ pause
    ∷ msgrcv 18 nowhere
    ∷ msgrcv 18 third
    ∷ msgrcv 18 prev
    ∷ set_group_own
    ∷ setpgid_own
    ∷ setpgid next
    ∷ setpgid third
    ∷ setpgid prev
    ∷ msgsnd_group 2
    ∷ msgsnd_group 3
    ∷ msgsnd_group 4
    ∷ scanf
    ∷ remove_queue
    ∷ return_main
    ∷ []

-- main of p2.c
unfoldable pub main2 : List Call
main2 =
    msgsnd_own 2
    ∷ while_no_prev
    ∷ pause
    ∷ msgrcv 3 next
    ∷ msgsnd_prev 1
    ∷ msgsnd_own 18
    ∷ kill_next
    ∷ msgrcv 2 group
    ∷ killpg
    ∷ return_main
    ∷ []

-- main of p3.c
unfoldable pub main3 : List Call
main3 =
    msgsnd_own 3
    ∷ while_no_prev
    ∷ pause
    ∷ msgsnd_own 18
    ∷ msgrcv 4 next
    ∷ kill_next
    ∷ msgrcv 3 group
    ∷ killpg
    ∷ return_main
    ∷ []

-- main of p4.c
unfoldable pub main4 : List Call
main4 =
    msgsnd_own 4
    ∷ while_no_prev
    ∷ pause
    ∷ msgsnd_own 18
    ∷ msgrcv 1 next
    ∷ kill_next
    ∷ msgrcv 4 group
    ∷ killpg
    ∷ return_main
    ∷ []

-- Whether a process runs, sleeps in a call, has returned 0 from main, or 1 after an error.
pub data Status : Type 0 where
  running asleep returned failed : Status

-- A process: the index of its next call, its variables (0 where no id is known), the senders of
-- pending signals (0 if none), how often SIGUSR1 was handled, and whether it is in the group.
pub record Process : Type 0 where
  pub place : ℕ
  pub status : Status
  pub next_id : ℕ
  pub prev_id : ℕ
  pub third_id : ℕ
  pub group_id : ℕ
  pub pending1 : ℕ
  pub pending2 : ℕ
  pub in_group : Bool

-- The processes have the ids 1 to 4; the queue holds types and ids.
pub record World : Type 0 where
  pub p1 : Process
  pub p2 : Process
  pub p3 : Process
  pub p4 : Process
  pub queue : List (ℕ × ℕ)
  pub is_removed : Bool

abbrev pub fresh : Process
fresh = record {
  place = 0;
  status = running;
  next_id = 0;
  prev_id = 0;
  third_id = 0;
  group_id = 0;
  pending1 = 0;
  pending2 = 0;
  in_group = false;
}

-- All have installed their handlers.
abbrev pub started : World
started = record { p1 = fresh; p2 = fresh; p3 = fresh; p4 = fresh; queue = []; is_removed = false }

abbrev pub get : ℕ → World → Process
get n w = if n == 1 then w.p1 else if n == 2 then w.p2 else if n == 3 then w.p3 else w.p4

abbrev pub put : ℕ → Process → World → World
put n p w =
    if n == 1
    then record w { p1 = p }
    else if n == 2
    then record w { p2 = p }
    else if n == 3
    then record w { p3 = p }
    else record w { p4 = p }

abbrev pub main_of : ℕ → List Call
main_of n = if n == 1 then main1 else if n == 2 then main2 else if n == 3 then main3 else main4

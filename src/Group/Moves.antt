-- ===== src/Group/Moves.antt =====
-- The moves of 12-1-22/group_signal: a call of a main function, or a handler that runs.
use cn_lab.Base.{
  ℕ, ◌+◌, ◌-◌, Option, none, some, List, [], ◌∷◌, ◌++◌, Bool, true, false, not, ◌&&◌, ◌||◌, ◌==◌,
  if◌then◌else◌, get_elem?,
}
use cn_lab.Ring.Signals.{msgrcv}
use cn_lab.Group.{
  Slot, next, prev, third, group, nowhere, Call, Status, running, asleep, returned, failed, Process,
  World, get, put, main_of,
}

abbrev pub is_alive : Status → Bool
is_alive s = elim s [ running ↦ true | asleep ↦ true | _ ↦ false ]

abbrev pub is_asleep : Status → Bool
is_asleep s = elim s [ asleep ↦ true | _ ↦ false ]

unfoldable pub load : Slot → Process → ℕ
load next p = p.next_id
load prev p = p.prev_id
load third p = p.third_id
load group p = p.group_id
load nowhere p = 0

unfoldable pub store : Slot → ℕ → Process → Process
store next id p = record p { next_id = id }
store prev id p = record p { prev_id = id }
store third id p = record p { third_id = id }
store group id p = record p { group_id = id }
store nowhere id p = p

-- kill(target, SIGUSR1)
unfoldable pub kill1 : ℕ → ℕ → World → World
kill1 sender target w =
    let p = get target w in
    if is_alive p.status && not (target == 0)
    then put target (record p { pending1 = if p.pending1 == 0 then sender else p.pending1 }) w
    else w

-- SIGUSR2 to a process, if it is in the group.
unfoldable pub kill2 : ℕ → ℕ → World → World
kill2 sender target w =
    let p = get target w in
    if is_alive p.status && p.in_group
    then put target (record p { pending2 = if p.pending2 == 0 then sender else p.pending2 }) w
    else w

-- setpgid(target, p1pid) by the process `caller`. The four programs are started side by side, so none
-- is the child of another: for any process but the caller the call fails with ESRCH, and p1.c only
-- prints the error.
unfoldable pub set_pgid : (caller target : ℕ) → World → World
set_pgid caller target w =
    if target == caller then put target (record (get target w) { in_group = true }) w else w

abbrev pub advance : Process → Process
advance p = record p { place = p.place + 1; status = running }

abbrev fail : Process → Process
fail p = record p { status = failed }

unfoldable pub msgsnd : ℕ → ℕ → ℕ → World → World
msgsnd n type id w =
    let p = get n w in
    if w.is_removed
    then put n (fail p) w
    else put n (advance p) (record w { queue = w.queue ++ (type, id) ∷ [] })

-- A call of the main function of process n; `none` if it sleeps on.
unfoldable pub perform : ℕ → Call → World → Option World
perform n (Call.msgsnd_own type) w = some (msgsnd n type n w)
perform n (Call.msgsnd_prev type) w = some (msgsnd n type (get n w).prev_id w)
perform n (Call.msgsnd_group type) w = some (msgsnd n type (get n w).group_id w)
perform n (Call.msgrcv type slot) w =
    let p = get n w in
    if w.is_removed then some (put n (fail p) w) else elim (msgrcv type w.queue) [
      | none ↦ if is_asleep p.status then none else some (put n (record p { status = asleep }) w)
      | some (id, rest) ↦ some (put n (store slot id (advance p)) (record w { queue = rest }))
    ]
perform n Call.kill_next w = let p = get n w in some (kill1 n p.next_id (put n (advance p) w))
perform n Call.while_no_prev w =
    let p = get n w in
    some (put n (record p { place = if p.prev_id == 0 then p.place + 1 else p.place + 2 }) w)
perform n Call.pause w =
    let p = get n w in
    if is_asleep p.status then none else some (put n (record p { status = asleep }) w)
perform n Call.set_group_own w = some (put n (store group n (advance (get n w))) w)
perform n (Call.setpgid slot) w =
    let p = get n w in some (set_pgid n (load slot p) (put n (advance p) w))
perform n Call.setpgid_own w = some (set_pgid n n (put n (advance (get n w)) w))
perform n Call.killpg w =
    some (kill2 n 1 (kill2 n 2 (kill2 n 3 (kill2 n 4 (put n (advance (get n w)) w)))))
perform n Call.scanf w =
    let p = get n w in
    some (put n (if is_asleep p.status then advance p else record p { status = asleep }) w)
perform n Call.remove_queue w = some (put n (advance (get n w)) (record w { is_removed = true }))
perform n Call.return_main w = some (put n (record (get n w) { status = returned }) w)

unfoldable pub proceed : ℕ → World → Option World
proceed n w =
    let p = get n w in
    if is_alive p.status
    then elim (get_elem? (main_of n) p.place) [ none ↦ none | some call ↦ perform n call w ]
    else none

-- What a handler does to the call that it interrupts: pause returns and the loop tests again, msgrcv
-- fails, and scanf returns with no input.
unfoldable pub interrupt : ℕ → Process → Process
interrupt n p = elim p.status [
  | asleep ↦ elim (get_elem? (main_of n) p.place) [
    | some (Call.msgrcv type slot) ↦ fail p
    | some Call.pause ↦ record p { place = p.place - 1; status = running }
    | _ ↦ advance p
  ]
  | _ ↦ p
]

-- A message for a sleeping msgrcv is handed over before a signal can interrupt it. If the processes
-- are `is_patient`, no handler runs between the test of a while loop and its pause().
unfoldable pub is_deliverable : Bool → ℕ → World → Bool
is_deliverable is_patient n w =
    let p = get n w in
    elim (get_elem? (main_of n) p.place) [
      | some (Call.msgrcv type slot) ↦ elim (msgrcv type w.queue) [
        | none ↦ true
        | some found ↦ not (is_asleep p.status)
      ]
      | some Call.pause ↦ is_asleep p.status || not is_patient
      | _ ↦ true
    ]

-- sigusr1_handler: p1.c keeps the first sender only.
unfoldable pub sigusr1_handler : ℕ → ℕ → Process → Process
sigusr1_handler n si_pid p =
    if n == 1 && not (p.prev_id == 0) then p else record p { prev_id = si_pid }

unfoldable pub deliver1 : Bool → ℕ → World → Option World
deliver1 is_patient n w =
    let p = get n w in
    if is_alive p.status && not (p.pending1 == 0) && is_deliverable is_patient n w
    then some (put n (sigusr1_handler n p.pending1 (interrupt n (record p { pending1 = 0 }))) w)
    else none

-- sigusr2_handler prints only.
unfoldable pub deliver2 : Bool → ℕ → World → Option World
deliver2 is_patient n w =
    let p = get n w in
    if is_alive p.status && not (p.pending2 == 0) && is_deliverable is_patient n w
    then some (put n (interrupt n (record p { pending2 = 0 })) w)
    else none

abbrev options : Option World → List World
options none = []
options (some w) = w ∷ []

abbrev moves_of : Bool → ℕ → World → List World
moves_of is_patient n w =
    options (proceed n w) ++ options (deliver1 is_patient n w) ++ options (deliver2 is_patient n w)

unfoldable pub moves : Bool → World → List World
moves is_patient w =
    moves_of is_patient 1 w
    ++ moves_of is_patient 2 w
    ++ moves_of is_patient 3 w
    ++ moves_of is_patient 4 w

-- The moves until p1.c has done with its calls of setpgid: it has come to the message that tells the
-- group's id to p2.c.
unfoldable pub forming : Bool → World → List World
forming is_patient w = if w.p1.place == 12 then [] else moves is_patient w

-- ===== src/Ring/Signals.antt =====
-- The moves of the ring of 12-1-22/circular_signal: a call of a main function, or a handler that
-- runs. A handler runs as one move.
use cn_lab.Base.{
  ℕ, ◌+◌, ◌-◌, Option, none, some, List, [], ◌∷◌, ◌++◌, Bool, true, false, not, ◌&&◌, ◌||◌, ◌==◌,
  leb, if◌then◌else◌, get_elem?,
}
use cn_lab.Ring.{Signal, sigusr1, sigusr2, Call, Process, Ring, get, put, main_of}

-- Standard signals do not queue: one that is pending already is not added.
unfoldable pub set_pending : Signal → ℕ → Process → Process
set_pending sigusr1 sender p = record p {
  pending1 = if p.pending1 == 0 then sender else p.pending1;
}
set_pending sigusr2 sender p = record p {
  pending2 = if p.pending2 == 0 then sender else p.pending2;
}

unfoldable pub is_pending : Signal → Process → Bool
is_pending sigusr1 p = not (p.pending1 == 0)
is_pending sigusr2 p = not (p.pending2 == 0)

-- kill(target, signal); a process that has ended is not reached.
unfoldable pub kill : ℕ → Signal → ℕ → Ring → Ring
kill sender signal target s =
    let p = get target s in
    if target == 0
    then record s { is_stray = true }
    else if p.is_alive
    then record (put target (set_pending signal sender p) s) {
      is_merged = s.is_merged || is_pending signal p;
    }
    else s

-- sigusr1_handler, with info->si_pid: the same in p2.c, p3.c and p4.c; p1.c only counts.
unfoldable pub sigusr1_handler : ℕ → ℕ → Ring → Ring
sigusr1_handler n si_pid s =
    let p = get n s in
    let count = p.usr1_count + 1 in
    if count == 1
    then put n (record p { usr1_count = count; prev = si_pid }) s
    else if n == 1
    then put n (record p { usr1_count = count }) s
    else if leb 2 count && leb count 4
    then kill n sigusr1 p.next (put n (record p { usr1_count = count }) s)
    else put n (record p { usr1_count = count }) s

-- sigusr2_handler: p1.c only prints; the others pass the signal on three times and then end with
-- SIGINT, p2.c and p3.c after the last signal to the next process.
unfoldable pub sigusr2_handler : ℕ → Ring → Ring
sigusr2_handler n s =
    let p = get n s in
    let count = p.usr2_count + 1 in
    if n == 1
    then s
    else if leb 1 count && leb count 3
    then kill n sigusr2 p.prev (put n (record p { usr2_count = count }) s)
    else let ended = put n (record p { usr2_count = count; is_alive = false }) s in
      if n == 4 then ended else kill n sigusr2 p.next ended

-- pause() returns once a handler has run; as the body of the while loop it is followed by the test.
unfoldable pub wake : ℕ → Process → Process
wake n p =
    if p.is_asleep
    then record p {
      is_asleep = false;
      place = elim (get_elem? (main_of n) p.place) [
        | some Call.pause_in_while ↦ p.place - 1
        | _ ↦ p.place + 1
      ];
    }
    else p

-- Whether a process is between the call before pause() and its sleep.
unfoldable pub is_about_to_pause : ℕ → Process → Bool
is_about_to_pause n p = not p.is_asleep && elim (get_elem? (main_of n) p.place) [
  | some Call.pause_in_while ↦ true
  | some Call.pause_once ↦ true
  | _ ↦ false
]

-- A handler of process n runs. If the ring is `is_patient`, no handler runs just before a pause().
unfoldable pub deliver : Bool → ℕ → Signal → Ring → Option Ring
deliver is_patient n sigusr1 s =
    let p = get n s in
    if p.is_alive && not (p.pending1 == 0) && not (is_patient && is_about_to_pause n p)
    then some (sigusr1_handler n p.pending1 (put n (wake n (record p { pending1 = 0 })) s))
    else none
deliver is_patient n sigusr2 s =
    let p = get n s in
    if p.is_alive && not (p.pending2 == 0) && not (is_patient && is_about_to_pause n p)
    then some (sigusr2_handler n (put n (wake n (record p { pending2 = 0 })) s))
    else none

-- msgrcv: the first message of the type, and the queue without it.
unfoldable pub msgrcv : ℕ → List (ℕ × ℕ) → Option (ℕ × List (ℕ × ℕ))
msgrcv type [] = none
msgrcv type ((t, id) ∷ queue) =
    let later : Option (ℕ × List (ℕ × ℕ)) = elim (msgrcv type queue) [
      | none ↦ none
      | some (found, rest) ↦ some (found, (t, id) ∷ rest)
    ] in
    if t == type then some (id, queue) else later

-- A call of the main function of process n.
unfoldable pub perform : ℕ → Call → Ring → Option Ring
perform n (Call.send_own_id type) s =
    let p = get n s in
    some (put n (record p { place = p.place + 1 }) (record s { queue = s.queue ++ (type, n) ∷ [] }))
perform n (Call.send_prev_id type) s =
    let p = get n s in
    some (
      put n (record p { place = p.place + 1 })
        (record s { queue = s.queue ++ (type, p.prev) ∷ [] }))
perform n (Call.receive type) s =
    let p = get n s in
    elim (msgrcv type s.queue) [
      | none ↦ none
      | some (id, rest) ↦
          some (put n (record p { place = p.place + 1; next = id }) (record s { queue = rest }))
    ]
perform n (Call.kill_next signal) s =
    let p = get n s in some (kill n signal p.next (put n (record p { place = p.place + 1 }) s))
perform n (Call.kill_prev signal) s =
    let p = get n s in some (kill n signal p.prev (put n (record p { place = p.place + 1 }) s))
perform n Call.while_no_prev s =
    let p = get n s in
    some (put n (record p { place = if p.prev == 0 then p.place + 1 else p.place + 2 }) s)
perform n Call.pause_in_while s = some (put n (record (get n s) { is_asleep = true }) s)
perform n Call.pause_once s = some (put n (record (get n s) { is_asleep = true }) s)
perform n Call.spin s = none
perform n Call.return_main s = some (put n (record (get n s) { is_alive = false }) s)

-- The next call of process n, if it neither sleeps nor has ended.
unfoldable pub proceed : ℕ → Ring → Option Ring
proceed n s =
    let p = get n s in
    if p.is_alive && not p.is_asleep
    then elim (get_elem? (main_of n) p.place) [ none ↦ none | some call ↦ perform n call s ]
    else none

abbrev options : Option Ring → List Ring
options none = []
options (some s) = s ∷ []

abbrev moves_of : Bool → ℕ → Ring → List Ring
moves_of is_patient n s =
    options (proceed n s)
    ++ options (deliver is_patient n sigusr1 s)
    ++ options (deliver is_patient n sigusr2 s)

-- What the scheduler and the delivery of signals can do.
unfoldable pub moves : Bool → Ring → List Ring
moves is_patient s =
    moves_of is_patient 1 s
    ++ moves_of is_patient 2 s
    ++ moves_of is_patient 3 s
    ++ moves_of is_patient 4 s

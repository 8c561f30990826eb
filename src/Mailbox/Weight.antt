-- ===== src/Mailbox/Weight.antt =====
-- How many calls are left: each one takes one off.
use cn_lab.Base.{
  ℕ, zero, suc, ◌+◌, ◌≤◌, ◌<◌, ◌≡◌, refl, ap, List, [], ◌∷◌, ◌++◌, ◌==◌, if◌then◌else◌, arith,
}
use cn_lab.Mailbox.{Message, request, Client, Server, Net, IsClient, moved, opened, Step, Run}
use cn_lab.Mailbox.Queue.{Taken, msgrcv-Taken}
use cn_lab.Mailbox.Steps.{run-Invariant}
use cn_lab.Mailbox.Invariant.{Pids, Invariant, ServerTrue}

abbrev client_weight : Client → ℕ
client_weight Client.start = 4
client_weight Client.waiting = 1
client_weight (Client.finished mtext) = 0

abbrev clients_weight : (ℕ → Client) → ℕ
clients_weight f = client_weight (f 2) + client_weight (f 3) + client_weight (f 4)

abbrev message_weight : Message → ℕ
message_weight m = if m.mtype == 1 then 2 else 0

abbrev queue_weight : List Message → ℕ
queue_weight [] = 0
queue_weight (m ∷ q) = message_weight m + queue_weight q

abbrev server_weight : Server → ℕ
server_weight Server.receiving = 0
server_weight (Server.sending m) = 1

abbrev weight : Net → ℕ
weight s = clients_weight s.clients + queue_weight s.queue + server_weight s.server

moved_weight :
    (c : ℕ) (place : Client) (f : ℕ → Client)
    → IsClient c
    → clients_weight (moved c place f) + client_weight (f c)
      ≡ clients_weight f + client_weight place
moved_weight zero place f h = absurd (omega arith)
moved_weight (suc zero) place f h = absurd (omega arith)
moved_weight (suc (suc zero)) place f h = omega arith
moved_weight (suc (suc (suc zero))) place f h = omega arith
moved_weight (suc (suc (suc (suc zero)))) place f h = omega arith
moved_weight (suc (suc (suc (suc (suc c))))) place f h = absurd (omega arith)

append_weight :
    (q : List Message) (m : Message)
    → queue_weight (q ++ m ∷ []) ≡ queue_weight q + message_weight m
append_weight [] m = omega arith
append_weight (x ∷ q) m = omega (arith, append_weight q m)

Taken-weight :
    {m : Message} {q rest : List Message}
    → Taken m q rest
    → queue_weight q ≡ message_weight m + queue_weight rest
Taken-weight Taken.here = refl
Taken-weight (Taken.there t) = omega (arith, Taken-weight t)

other_weight : (m : Message) (id : ℕ) → m.mtype ≡ id → 1 < id → message_weight m ≡ 0
other_weight m id e above = ground arith

request_weight : (m : Message) → m.mtype ≡ 1 → message_weight m ≡ 2
request_weight m e = ground arith

reply_weight :
    (pid : ℕ → ℕ) (m : Message)
    → Pids pid
    → ServerTrue pid (Server.sending m)
    → message_weight m ≡ 0
reply_weight pid m pids (c, h, e) = other_weight m (pid c) (ap (λ x. x.mtype) e) (pids.above c h)

step_weight :
    (pid : ℕ → ℕ) {s t : Net}
    → Pids pid
    → Invariant pid s
    → Step pid s t
    → weight s ≡ suc (weight t)
step_weight pid {s} pids inv (Step.msgsnd_request c h e) =
    let place : client_weight (s.clients c) ≡ 4 = ap client_weight e in
    let two = request_weight (request c (pid c)) (unfold request in refl) in
    omega (
      arith,
      place,
      two,
      moved_weight c Client.waiting s.clients h,
      append_weight s.queue (request c (pid c)),
    )
step_weight pid {s} pids inv (Step.msgrcv_request m rest free found) =
    let (type, t) = msgrcv-Taken 1 s.queue found in
    let place : server_weight s.server ≡ 0 = ap server_weight free in
    omega (arith, place, request_weight m type, Taken-weight t)
step_weight pid {s} pids inv (Step.msgsnd_reply m busy) =
    let held : ServerTrue pid (Server.sending m) = rw busy at inv.server_true in
    let place : server_weight s.server ≡ 1 = ap server_weight busy in
    omega (arith, place, reply_weight pid m pids held, append_weight s.queue m)
step_weight pid {s} pids inv (Step.msgrcv_reply c m rest h e found) =
    let (type, t) = msgrcv-Taken (pid c) s.queue found in
    let place : client_weight (s.clients c) ≡ 1 = ap client_weight e in
    omega (
      arith,
      place,
      other_weight m (pid c) type (pids.above c h),
      Taken-weight t,
      moved_weight c (Client.finished m.mtext) s.clients h,
    )

run_weight : (pid : ℕ → ℕ) {n : ℕ} {s : Net} → Pids pid → Run pid n s → n + weight s ≡ 12
unfolding opened
run_weight pid pids Run.begin = refl
run_weight pid {s = t} pids (Run.next {n} {s} r st) =
    omega (arith, run_weight pid pids r, step_weight pid pids (run-Invariant pid pids r) st)

-- However the calls of the four programs follow one another, there are at most 12 of them in a run,
-- for any distinct ids of the clients above 1.
pub run_bound : (pid : ℕ → ℕ) {n : ℕ} {s : Net} → Pids pid → Run pid n s → n ≤ 12
run_bound pid pids r = omega (arith, run_weight pid pids r)

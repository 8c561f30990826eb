-- ===== src/Exclusive/Fair.antt =====
-- What holds of every run of the clients: one holds the connection, and they are served in turn.
use cn_lab.Base.{ℕ, ◌≡◌, ◌≢◌, refl, some, List, ◌++◌, Bool, true, false, length, ◌≤◌, arith}
use cn_lab.Exclusive.{Place, Client, Ess, Reach, started, start, later}
use cn_lab.Exclusive.Token.{
  count, Stage, alone, about, called, sending, role_of, ok, Inv, called_of_connect,
}
use cn_lab.Exclusive.Keep.{Inv-holder}
use cn_lab.Exclusive.Turns.{Service, opens, in_order, entered, front, Simulates}
use cn_lab.Exclusive.Simulation.{itself, step-Simulates}

started-Inv : (first : ℕ) → Inv (started first) first alone
unfolding started ok
started-Inv first = record { each = λ q. ground arith; linked = tt }

pub reach-Simulates : {first : ℕ} {s : Ess} (r : Reach first s) → Simulates first (entered r) s
unfolding started entered
reach-Simulates {first} start = record {
  h = first;
  st = alone;
  inv = started-Inv first;
  service = rw (itself first) opens;
}
reach-Simulates {first} (later {s} {t} r step) =
    let m = reach-Simulates r in step-Simulates (entered r) s t m.h m.st m.inv m.service step

-- A client has the connection from when the descriptor has come to it until it exits.
abbrev pub has_connection : Client → Bool
has_connection c = elim c.place [
  | Place.recv_fd ↦ c.granted
  | Place.serve ↦ true
  | Place.msgrcv ↦ true
  | Place.listen n ↦ true
  | Place.kill n ↦ true
  | Place.accept n ↦ true
  | Place.send_fd n ↦ true
  | _ ↦ false
]

connection_of_holder :
    (h : ℕ) (st : Stage) (c : Client) (k : ℕ)
    → ok (role_of h st h) c k ≡ true
    → has_connection c ≡ true
unfolding ok
connection_of_holder h st c k okh = ground arith

front_short : (h : ℕ) (st : Stage) (clients : ℕ → Client) → length (front h st clients) ≤ 1
front_short h alone clients = ground arith
front_short h (about n) clients = omega arith
front_short h (called n) clients = omega arith
front_short h (sending n) clients = omega arith

-- A client that is about to connect finds the listening socket of another client, which has the
-- connection to the server.
pub connects :
    {first : ℕ} {s : Ess} (p : ℕ)
    → Reach first s
    → (s.clients p).place ≡ Place.connect
    → (h : ℕ) × (s.listener ≡ some h) × (p ≢ h) × (has_connection (s.clients h) ≡ true)
connects {first} {s} p reach e =
    let m = reach-Simulates reach in
    let (ne, same) =
      called_of_connect m.h p m.st (s.clients p) (count p s.queue) (m.inv.each p) e in
    let i = Inv-holder s m.h m.h m.st (called p) m.inv (refl, same) in
    (
      m.h,
      i.linked.1,
      ne,
      connection_of_holder m.h (called p) (s.clients m.h) (count m.h s.queue) (i.each m.h),
    )

-- The clients implement a first-in first-out service. In every run, the abstract service to which
-- the first client and then the clients that enter the message queue come in the same order has
-- served the clients that have talked to the server, and lets wait those in the message queue, in
-- that order, behind at most one more. So the clients served and then those that wait are those
-- that have entered, in the order in which they did.
pub refines-Service :
    {first : ℕ} {s : Ess} (r : Reach first s)
    → (before : List ℕ) × (length before ≤ 1)
      × Service first (entered r) (before ++ s.queue) s.served
      × (entered r ≡ s.served ++ (before ++ s.queue))
refines-Service {first} {s} r =
    let m = reach-Simulates r in
    (front m.h m.st s.clients, front_short m.h m.st s.clients, m.service, in_order m.service)

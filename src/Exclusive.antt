-- ===== src/Exclusive.antt =====
-- The exclusive service of minor1/Q2-ESS: any number of clients share one connection to the server.
-- C.c waits until its predecessor, first_client.c or another C.c, has signalled it and passed it the
-- connection's descriptor, talks to the server, and passes the descriptor on to the client whose
-- process id is first in the message queue. Processes move in any order.
pub mod Token
pub mod Keep
pub mod Call
pub mod Pass
pub mod Turns
pub mod Simulation
pub mod Fair
mod Samples
use cn_lab.Base.{
  ℕ, ◌≡◌, Option, none, some, List, [], ◌∷◌, ◌++◌, Bool, true, false, ◌==◌, if◌then◌else◌,
}

-- Where a client stands: each name is the call that comes next; `asleep` is inside pause(). The
-- process id is next_client_pid, later that of the accepted connection.
pub data Place : Type 0 where
  msgsnd test_ready pause asleep connect recv_fd : Place
  serve msgrcv : Place
  listen kill accept send_fd : (pid : ℕ) → Place
  exited : Place

-- A client: its place, whether SIGUSR1 is pending, previous_client_ready_to_accept, and whether the
-- descriptor has been sent to it.
pub record Client : Type 0 where
  pub place : Place
  pub pending : Bool
  pub ready : Bool
  pub granted : Bool

-- The message queue, the clients by process id, whose socket is bound to uds_path, the connections
-- that it has not accepted, and the clients that have talked to the server, in order.
pub record Ess : Type 0 where
  pub queue : List ℕ
  pub clients : ℕ → Client
  pub listener : Option ℕ
  pub backlog : List ℕ
  pub served : List ℕ

abbrev pub update : ℕ → Client → (ℕ → Client) → ℕ → Client
update p c clients q = if q == p then c else clients q

-- C.c at its start, and first_client.c once it is connected.
abbrev pub new_client : Client
new_client = record { place = Place.msgsnd; pending = false; ready = false; granted = false }

abbrev pub first_client : Client
first_client = record { place = Place.serve; pending = false; ready = false; granted = true }

unfoldable pub started : ℕ → Ess
started first = record {
  queue = [];
  clients = update first first_client (λ q. new_client);
  listener = none;
  backlog = [];
  served = [];
}

-- pause() returns when the handler has run, and the loop tests again.
unfoldable pub woken : Place → Place
woken Place.asleep = Place.test_ready
woken other = other

abbrev pub at : Ess → ℕ → Place → Ess
at s p place = record s { clients = update p (record (s.clients p) { place = place }) s.clients }

-- A move of client p; a failed connect ends it.
pub data Step (s : Ess) : Ess → Type 0 where
  enters :
      (p : ℕ)
      → (s.clients p).place ≡ Place.msgsnd
      → Step s (at (record s { queue = s.queue ++ p ∷ [] }) p Place.test_ready)
  is_ready :
      (p : ℕ)
      → (s.clients p).place ≡ Place.test_ready
      → (s.clients p).ready ≡ true
      → Step s (at s p Place.connect)
  is_not_ready :
      (p : ℕ)
      → (s.clients p).place ≡ Place.test_ready
      → (s.clients p).ready ≡ false
      → Step s (at s p Place.pause)
  sleeps : (p : ℕ) → (s.clients p).place ≡ Place.pause → Step s (at s p Place.asleep)
  sig_usr1_handler :
      (p : ℕ)
      → (s.clients p).pending ≡ true
      → Step s (record s {
        clients =
            update p
              (record (s.clients p) {
                place = woken (s.clients p).place;
                pending = false;
                ready = true;
              })
              s.clients;
      })
  cli_uds_conn :
      (p q : ℕ)
      → (s.clients p).place ≡ Place.connect
      → s.listener ≡ some q
      → Step s (at (record s { backlog = s.backlog ++ p ∷ [] }) p Place.recv_fd)
  is_refused :
      (p : ℕ)
      → (s.clients p).place ≡ Place.connect
      → s.listener ≡ none
      → Step s (at s p Place.exited)
  receives :
      (p : ℕ)
      → (s.clients p).place ≡ Place.recv_fd
      → (s.clients p).granted ≡ true
      → Step s (at s p Place.serve)
  serves :
      (p : ℕ)
      → (s.clients p).place ≡ Place.serve
      → Step s (at (record s { served = s.served ++ p ∷ [] }) p Place.msgrcv)
  takes :
      (p n : ℕ) (rest : List ℕ)
      → (s.clients p).place ≡ Place.msgrcv
      → s.queue ≡ n ∷ rest
      → Step s (at (record s { queue = rest }) p (Place.listen n))
  serv_uds_listen :
      (p n : ℕ)
      → (s.clients p).place ≡ Place.listen n
      → Step s (at (record s { listener = some p; backlog = [] }) p (Place.kill n))
  kills :
      (p n : ℕ)
      → (s.clients p).place ≡ Place.kill n
      → Step s (record s {
        clients =
            update n
              (record (s.clients n) { pending = true })
              (update p (record (s.clients p) { place = Place.accept n }) s.clients);
      })
  accepts :
      (p n c : ℕ) (rest : List ℕ)
      → (s.clients p).place ≡ Place.accept n
      → s.listener ≡ some p
      → s.backlog ≡ c ∷ rest
      → Step s (at (record s { backlog = rest }) p (Place.send_fd c))
  sends :
      (p c : ℕ)
      → (s.clients p).place ≡ Place.send_fd c
      → Step s (record s {
        listener = none;
        clients =
            update c
              (record (s.clients c) { granted = true })
              (update p (record (s.clients p) { place = Place.exited }) s.clients);
      })

pub data Reach (first : ℕ) : Ess → Type 0 where
  start : Reach first (started first)
  later : {s t : Ess} → Reach first s → Step s t → Reach first t

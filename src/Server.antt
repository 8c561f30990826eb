-- ===== src/Server.antt =====
-- The all-in-one server S.c of minor1/Q3-AIO: clients are kept in an array in the order of their
-- arrival, messages of the other programs go to all that wait, and SIGUSR1 hands the first waiting
-- client to the echo server.
pub mod Arrival
pub mod Queue
mod Samples
use cn_lab.Base.{
  ℕ, zero, suc, ◌+◌, ◌-◌, Option, none, some, List, [], ◌∷◌, ◌++◌, ltb, if◌then◌else◌, codes,
  get_or, set, replicate,
}

abbrev pub max_nsfd : ℕ
max_nsfd = 10

-- nsfds, nsfd_start and nsfd_count; what was sent to which descriptor; and the clients that were
-- handed to the echo server.
pub record Server : Type 0 where
  pub nsfds : List ℕ
  pub nsfd_start : ℕ
  pub nsfd_count : ℕ
  pub sent : List (ℕ × List ℕ)
  pub echoed : List ℕ

abbrev pub new_server : Server
new_server = record {
  nsfds = replicate max_nsfd 0;
  nsfd_start = 0;
  nsfd_count = 0;
  sent = [];
  echoed = [];
}

-- sig_usr1_handler, up to the fork; the child becomes the echo server of nsfd.
unfoldable pub sig_usr1_handler : Server → Server
sig_usr1_handler s =
    let nsfd = get_or s.nsfds s.nsfd_start 0 in
    if ltb s.nsfd_start s.nsfd_count
    then record s {
      nsfd_start = s.nsfd_start + 1;
      sent = s.sent ++ (nsfd, codes "echo_start" ++ 10 ∷ []) ∷ [];
      echoed = s.echoed ++ nsfd ∷ [];
    }
    else s

unfoldable pub signals : ℕ → Server → Server
signals zero s = s
signals (suc n) s = signals n (sig_usr1_handler s)

-- What the call for a ready descriptor gives: accept a client or -1, read a message or nothing.
pub data Event : Type 0 where
  accepted : (c_sfd : ℕ) → Event
  accept_failed : Event
  message : List ℕ → Event
  no_message : Event

-- The loop over j from c_start, n clients of it.
unfoldable pub broadcast : ℕ → ℕ → List ℕ → Server → Server
broadcast j zero msg s = s
broadcast j (suc n) msg s =
    broadcast (j + 1) n msg (record s { sent = s.sent ++ (get_or s.nsfds j 0, msg) ∷ [] })

-- The body of the loop over the ready descriptors; `none` is a write past nsfds.
unfoldable pub handle : ℕ → ℕ → Event → Server → Option Server
handle c_start c_end (accepted c_sfd) s =
    if ltb s.nsfd_count max_nsfd
    then some (record s { nsfds = set s.nsfds s.nsfd_count c_sfd; nsfd_count = s.nsfd_count + 1 })
    else none
handle c_start c_end accept_failed s = some s
handle c_start c_end (message msg) s = some (broadcast c_start (c_end - c_start) msg s)
handle c_start c_end no_message s = some s

unfoldable pub handle_all : ℕ → ℕ → List Event → Server → Option Server
handle_all c_start c_end [] s = some s
handle_all c_start c_end (e ∷ events) s = elim (handle c_start c_end e s) [
  | none ↦ none
  | some t ↦ handle_all c_start c_end events t
]

-- One round of the loop of main: the bounds are read, signals come in while poll blocks, and then
-- the ready descriptors are served.
unfoldable pub round : ℕ → List Event → Server → Option Server
round interrupts events s = handle_all s.nsfd_start s.nsfd_count events (signals interrupts s)

unfoldable pub rounds : List (ℕ × List Event) → Server → Option Server
rounds [] s = some s
rounds ((interrupts, events) ∷ more) s = elim (round interrupts events s) [
  | none ↦ none
  | some t ↦ rounds more t
]

-- ===== src/Inet.antt =====
-- The super server of 10-2-22/inet_d/inet.c: it accepts a client, reads which of two services the
-- client wants, accepts that service's next process and passes the client's connection on to it.
pub mod Service
mod Samples
use cn_lab.Base.{
  ℕ, suc, ◌+◌, Option, none, some, List, [], ◌∷◌, ◌++◌, Bool, true, false, ◌==◌, ◌||◌,
  if◌then◌else◌, take,
}
use cn_lab.Base.Decimal.{atoi}
use cn_lab.Passing.{Table, install, Chunk, send_fd}

-- The server's descriptors; the processes that wait at the two listening sockets, each named by the
-- open file of its connection; and what has been sent to processes, in order.
pub record Inet : Type 0 where
  pub table : Table
  pub service1 : List ℕ
  pub service2 : List ℕ
  pub passed : List (ℕ × List Chunk)

-- usfd[choice-1]
abbrev pub waiting : ℕ → Inet → List ℕ
waiting choice s = if choice == 1 then s.service1 else s.service2

abbrev pub set_waiting : ℕ → List ℕ → Inet → Inet
set_waiting choice rest s =
    if choice == 1 then record s { service1 = rest } else record s { service2 = rest }

-- send_fd to the accepted process; a -1 is reported and passed over.
unfoldable pub pass_on : ℕ → ℕ → Inet → Inet
pass_on service nsfd s = elim (send_fd s.table nsfd []) [
  | none ↦ s
  | some stream ↦ record s { passed = s.passed ++ (service, stream) ∷ [] }
]

-- accept of the service's next process; `none` blocks.
unfoldable pub accept_service : (choice nsfd : ℕ) → List ℕ → Inet → Option Inet
accept_service choice nsfd [] s = none
accept_service choice nsfd (service ∷ rest) s =
    let (unsfd, table) = install service s.table in
    some (pass_on service nsfd (record (set_waiting choice rest s) { table = table }))

-- One round of the loop, for the open file of the client's connection and what it sends. The
-- choice is a text of digits.
unfoldable pub serve_client : (client : ℕ) → (sent : List ℕ) → Inet → Option Inet
serve_client client sent s =
    let (nsfd, table) = install client s.table in
    let choice = atoi (take 3 sent ++ 0 ∷ []) in
    let opened = record s { table = table } in
    if choice == 1 || choice == 2
    then accept_service choice nsfd (waiting choice opened) opened
    else some opened

-- ===== src/Mailbox.antt =====
-- The message queue of 11-1-22/message queue: p2.c, p3.c and p4.c send their number and process id
-- to p1.c, which answers each under its id. A text is a C string without its NUL; pid_string has ten
-- bytes, which is enough for ids of at most seven digits.
pub mod Queue
pub mod Texts
pub mod Invariant
pub mod Steps
pub mod Weight
pub mod Replies
mod Samples
use cn_lab.Base.{
  ℕ, zero, suc, ◌+◌, ◌-◌, ◌≤◌, ◌≡◌, Option, none, some, List, [], ◌∷◌, ◌++◌, ◌==◌, leb,
  if◌then◌else◌, get_or, drop, codes,
}
use cn_lab.Base.Int.{ℤ, pos, neg}
use cn_lab.Base.Decimal.{decimal, atoi, print_int}

-- struct msgbuf
pub record Message : Type 0 where
  pub mtype : ℕ
  pub mtext : List ℕ

abbrev pub kept : Message → Option (Message × List Message) → Option (Message × List Message)
kept m none = none
kept m (some (found, rest)) = some (found, m ∷ rest)

-- The kernel's msgrcv: the first message of the type; `none` where it would wait.
unfoldable pub msgrcv : ℕ → List Message → Option (Message × List Message)
msgrcv type [] = none
msgrcv type (m ∷ queue) =
    let later = msgrcv type queue in if m.mtype == type then some (m, queue) else kept m later

-- What a client with a process number and an id sends.
unfoldable pub request : ℕ → ℕ → Message
request process_number pid = record {
  mtype = 1;
  mtext = decimal process_number ++ b'_' ∷ decimal pid;
}

-- int from_process = msg.mtext[0] - '0'
abbrev pub from_process : List ℕ → ℤ
from_process mtext =
    let c = get_or mtext 0 0 in if leb b'0' c then pos (c - b'0') else neg (pos (b'0' - c))

-- What p1.c makes of the message that it has received.
unfoldable pub answer : Message → Message
answer msg = record {
  mtype = atoi (drop 2 msg.mtext);
  mtext = codes "message from P1 to P" ++ (print_int (from_process msg.mtext) ++ codes " ");
}

-- Where a client stands, and what it prints in the end; where p1.c stands in its loop.
pub data Client : Type 0 where
  start waiting : Client
  finished : (mtext : List ℕ) → Client

pub data Server : Type 0 where
  receiving : Server
  sending : (msg : Message) → Server

pub record Net : Type 0 where
  pub queue : List Message
  pub server : Server
  pub clients : ℕ → Client

-- The process numbers of p2.c, p3.c and p4.c.
abbrev pub IsClient : ℕ → Type 0
IsClient c = (2 ≤ c) × (c ≤ 4)

abbrev pub moved : ℕ → Client → (ℕ → Client) → ℕ → Client
moved c place clients d = if d == c then place else clients d

unfoldable pub opened : Net
opened = record { queue = []; server = Server.receiving; clients = λ c. Client.start }

-- A call of one of the programs, given the ids of the clients.
pub data Step (pid : ℕ → ℕ) (s : Net) : Net → Type 0 where
  msgsnd_request :
      (c : ℕ)
      → IsClient c
      → s.clients c ≡ Client.start
      → Step pid s (record s {
        queue = s.queue ++ request c (pid c) ∷ [];
        clients = moved c Client.waiting s.clients;
      })
  msgrcv_request :
      (msg : Message) (rest : List Message)
      → s.server ≡ Server.receiving
      → msgrcv 1 s.queue ≡ some (msg, rest)
      → Step pid s (record s { queue = rest; server = Server.sending (answer msg) })
  msgsnd_reply :
      (msg : Message)
      → s.server ≡ Server.sending msg
      → Step pid s (record s { queue = s.queue ++ msg ∷ []; server = Server.receiving })
  msgrcv_reply :
      (c : ℕ) (msg : Message) (rest : List Message)
      → IsClient c
      → s.clients c ≡ Client.waiting
      → msgrcv (pid c) s.queue ≡ some (msg, rest)
      → Step pid s
          (record s { queue = rest; clients = moved c (Client.finished msg.mtext) s.clients })

-- n moves in any order.
pub data Run (pid : ℕ → ℕ) : ℕ → Net → Type 0 where
  begin : Run pid 0 opened
  next : {n : ℕ} {s t : Net} → Run pid n s → Step pid s t → Run pid (suc n) t

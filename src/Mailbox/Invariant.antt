-- ===== src/Mailbox/Invariant.antt =====
-- What holds between the calls of the programs, in any order: every message is a request or a reply
-- that is true to its client, and a client that waits has one of them on its way.
use cn_lab.Base.{ℕ, ◌<◌, ◌≡◌, ◌⊎◌, List, All}
use cn_lab.Mailbox.{Message, request, Client, Server, Net, IsClient}
use cn_lab.Mailbox.Texts.{reply}
use mathlib.Core.List.{Memᴰ}

-- Ids of processes that are not the same, and none that is the type of the requests.
pub record Pids (pid : ℕ → ℕ) : Type 0 where
  pub above : (c : ℕ) → IsClient c → 1 < pid c
  pub distinct : (c d : ℕ) → IsClient c → IsClient d → pid c ≡ pid d → c ≡ d

-- The message that p1.c has made and not yet sent.
abbrev pub Holds : Server → Message → Type 0
Holds Server.receiving m = ⊥
Holds (Server.sending n) m = n ≡ m

module _ (pid : ℕ → ℕ) where
  -- A message that is true to a client.
  abbrev pub IsTrue : Message → Type 0
  IsTrue m = (c : ℕ) × IsClient c × ((m ≡ request c (pid c)) ⊎ (m ≡ reply c (pid c)))

  abbrev pub ServerTrue : Server → Type 0
  ServerTrue Server.receiving = Unit
  ServerTrue (Server.sending m) = (c : ℕ) × IsClient c × (m ≡ reply c (pid c))

  -- The request or the reply of a client is on its way.
  abbrev pub Pending : ℕ → List Message → Server → Type 0
  Pending c queue server =
      Memᴰ (request c (pid c)) queue
      ⊎ (Holds server (reply c (pid c)) ⊎ Memᴰ (reply c (pid c)) queue)

  abbrev pub ClientTrue : ℕ → List Message → Server → Client → Type 0
  ClientTrue c queue server Client.start = Unit
  ClientTrue c queue server Client.waiting = Pending c queue server
  ClientTrue c queue server (Client.finished mtext) = mtext ≡ (reply c (pid c)).mtext

  pub record Invariant (s : Net) : Type 0 where
    pub queue_true : All IsTrue s.queue
    pub server_true : ServerTrue s.server
    pub clients_true : (c : ℕ) → IsClient c → ClientTrue c s.queue s.server (s.clients c)

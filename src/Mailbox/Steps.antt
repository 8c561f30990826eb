-- ===== src/Mailbox/Steps.antt =====
-- Every call of the programs keeps the invariant.
use cn_lab.Base.{
  ℕ, ◌≡◌, refl, sym, ap, ◌∙◌, inl, inr, List, [], ◌∷◌, ◌++◌, All-append, false, ◌==◌, ==_iff,
  Bool-cases, arith,
}
use cn_lab.Mailbox.{
  Message, request, answer, Client, Server, Net, IsClient, moved, opened, Step, Run,
}
use cn_lab.Mailbox.Texts.{reply, answer-request}
use cn_lab.Mailbox.Queue.{Taken, msgrcv-Taken, Taken-All, Taken-Memᴰ}
use mathlib.Core.List.{Memᴰ}
use mathlib.Core.List.Memᴰ
use cn_lab.Mailbox.Invariant.{Pids, IsTrue, ServerTrue, Pending, ClientTrue, Invariant}

module _ (pid : ℕ → ℕ) where
  -- What keeps a client's messages on their way keeps what is true of it.
  ClientTrue-map :
      (c : ℕ) (q q' : List Message) (server server' : Server) (place : Client)
      → (Pending pid c q server → Pending pid c q' server')
      → ClientTrue pid c q server place
      → ClientTrue pid c q' server' place
  ClientTrue-map c q q' server server' Client.start f h = tt
  ClientTrue-map c q q' server server' Client.waiting f h = f h
  ClientTrue-map c q q' server server' (Client.finished mtext) f h = h

  opened-Invariant : Invariant pid opened
  unfolding opened
  opened-Invariant = record { queue_true = tt; server_true = tt; clients_true = λ c h. tt }

  -- More messages in the queue.
  Pending-append :
      (c : ℕ) (q more : List Message) (server : Server)
      → Pending pid c q server
      → Pending pid c (q ++ more) server
  Pending-append c q more server (inl m) = inl (Memᴰ.append_left more m)
  Pending-append c q more server (inr (inl e)) = inr (inl e)
  Pending-append c q more server (inr (inr m)) = inr (inr (Memᴰ.append_left more m))

  asked :
      (s : Net) (c : ℕ)
      → Invariant pid s
      → IsClient c
      → Invariant pid (record s {
        queue = s.queue ++ request c (pid c) ∷ [];
        clients = moved c Client.waiting s.clients;
      })
  asked s c inv h = record {
    queue_true = All-append (IsTrue pid) s.queue _ inv.queue_true ((c, h, inl refl), tt);
    server_true = inv.server_true;
    clients_true = λ d hd. elim (Bool-cases (d == c)) [
      | inl same ↦
          let e : d ≡ c = (==_iff d c).0 same in
          rw same (inl (Memᴰ.append_right s.queue (Memᴰ.head (ap (λ x. request x (pid x)) e))))
      | inr other ↦ rw other (
          ClientTrue-map d s.queue _ s.server s.server (s.clients d)
            (Pending-append d s.queue _ s.server) (inv.clients_true d hd))
    ];
  }

  -- A message of the type 1 is a request, one of another type a reply to the client with this id.
  reply_type : (c : ℕ) (m : Message) → Pids pid → IsClient c → m ≡ reply c (pid c) → m.mtype ≡ 1 → ⊥
  reply_type c m pids h e type = omega (arith, pids.above c h, ap (λ x. x.mtype) e)

  request_type :
      (c d : ℕ) (m : Message) → Pids pid → IsClient d → m ≡ request c (pid c) → m.mtype ≡ pid d → ⊥
  unfolding request
  request_type c d m pids h e type = omega (arith, pids.above d h, ap (λ x. x.mtype) e)

  same_client :
      (c d : ℕ) (m : Message)
      → Pids pid
      → IsClient c
      → IsClient d
      → m ≡ reply d (pid d)
      → m.mtype ≡ pid c
      → d ≡ c
  same_client c d m pids h hd e type = pids.distinct d c hd h (ap (λ x. x.mtype) (sym e) ∙ type)

  Taken-Pending :
      (d : ℕ) (q rest : List Message) (server : Server) (m : Message)
      → Pids pid
      → IsClient d
      → server ≡ Server.receiving
      → m.mtype ≡ 1
      → Taken m q rest
      → Pending pid d q server
      → Pending pid d rest (Server.sending (answer m))
  Taken-Pending d q rest server m pids hd free type t (inl asked) = elim (Taken-Memᴰ t asked) [
    | inl e ↦ inr (inl (ap answer (sym e) ∙ answer-request d (pid d) hd))
    | inr r ↦ inl r
  ]
  Taken-Pending d q rest server m pids hd free type t (inr (inl held)) =
      let none_held : ⊥ = rw free at held in absurd none_held
  Taken-Pending d q rest server m pids hd free type t (inr (inr answered)) =
      elim (Taken-Memᴰ t answered) [
        | inl e ↦ absurd (reply_type d m pids hd (sym e) type)
        | inr r ↦ inr (inr r)
      ]

  answer_true :
      (m : Message)
      → Pids pid
      → m.mtype ≡ 1
      → IsTrue pid m
      → ServerTrue pid (Server.sending (answer m))
  answer_true m pids type (c, h, inl e) = (c, h, ap answer e ∙ answer-request c (pid c) h)
  answer_true m pids type (c, h, inr e) = absurd (reply_type c m pids h e type)

  taken :
      (s : Net) (m : Message) (rest : List Message)
      → Pids pid
      → Invariant pid s
      → s.server ≡ Server.receiving
      → m.mtype ≡ 1
      → Taken m s.queue rest
      → Invariant pid (record s { queue = rest; server = Server.sending (answer m) })
  taken s m rest pids inv free type t =
      let (own, true_rest) = Taken-All (IsTrue pid) t inv.queue_true in
      record {
        queue_true = true_rest;
        server_true = answer_true m pids type own;
        clients_true = λ d hd.
            ClientTrue-map d s.queue rest s.server (Server.sending (answer m)) (s.clients d)
              (Taken-Pending d s.queue rest s.server m pids hd free type t) (inv.clients_true d hd);
      }

  sent_Pending :
      (d : ℕ) (q : List Message) (server : Server) (m : Message)
      → server ≡ Server.sending m
      → Pending pid d q server
      → Pending pid d (q ++ m ∷ []) Server.receiving
  sent_Pending d q server m busy (inl asked) = inl (Memᴰ.append_left (m ∷ []) asked)
  sent_Pending d q server m busy (inr (inl held)) =
      let e : m ≡ reply d (pid d) = rw busy at held in
      inr (inr (Memᴰ.append_right q (Memᴰ.head (sym e))))
  sent_Pending d q server m busy (inr (inr answered)) =
      inr (inr (Memᴰ.append_left (m ∷ []) answered))

  sent :
      (s : Net) (m : Message)
      → Invariant pid s
      → s.server ≡ Server.sending m
      → Invariant pid (record s { queue = s.queue ++ m ∷ []; server = Server.receiving })
  sent s m inv busy =
      let (c, h, e) : ServerTrue pid (Server.sending m) = rw busy at inv.server_true in
      record {
        queue_true = All-append (IsTrue pid) s.queue (m ∷ []) inv.queue_true ((c, h, inr e), tt);
        server_true = tt;
        clients_true = λ d hd.
            ClientTrue-map d s.queue _ s.server Server.receiving (s.clients d)
              (sent_Pending d s.queue s.server m busy) (inv.clients_true d hd);
      }

  finished_Pending :
      (c d : ℕ) (q rest : List Message) (server : Server) (m : Message)
      → Pids pid
      → IsClient c
      → IsClient d
      → (d == c) ≡ false
      → m.mtype ≡ pid c
      → Taken m q rest
      → Pending pid d q server
      → Pending pid d rest server
  finished_Pending c d q rest server m pids h hd other type t (inl asked) =
      elim (Taken-Memᴰ t asked) [
        | inl e ↦ absurd (request_type d c m pids h (sym e) type)
        | inr r ↦ inl r
      ]
  finished_Pending c d q rest server m pids h hd other type t (inr (inl held)) = inr (inl held)
  finished_Pending c d q rest server m pids h hd other type t (inr (inr answered)) =
      elim (Taken-Memᴰ t answered) [
        | inl e ↦ let same = same_client c d m pids h hd (sym e) type in absurd (ground arith)
        | inr r ↦ inr (inr r)
      ]

  text_true :
      (c : ℕ) (m : Message)
      → Pids pid
      → IsClient c
      → m.mtype ≡ pid c
      → (IsTrue pid) m
      → m.mtext ≡ (reply c (pid c)).mtext
  text_true c m pids h type (d, hd, inl e) = absurd (request_type d c m pids h e type)
  text_true c m pids h type (d, hd, inr e) =
      ap (λ x. x.mtext) e ∙ ap (λ x. (reply x (pid x)).mtext) (same_client c d m pids h hd e type)

  finished :
      (s : Net) (c : ℕ) (m : Message) (rest : List Message)
      → Pids pid
      → Invariant pid s
      → IsClient c
      → m.mtype ≡ pid c
      → Taken m s.queue rest
      → Invariant pid
          (record s { queue = rest; clients = moved c (Client.finished m.mtext) s.clients })
  finished s c m rest pids inv h type t =
      let (own, true_rest) = Taken-All (IsTrue pid) t inv.queue_true in
      let text = text_true c m pids h type own in
      record {
        queue_true = true_rest;
        server_true = inv.server_true;
        clients_true = λ d hd. elim (Bool-cases (d == c)) [
          | inl same ↦
              let e : d ≡ c = (==_iff d c).0 same in
              rw same (text ∙ ap (λ x. (reply x (pid x)).mtext) (sym e))
          | inr other ↦ rw other (
              ClientTrue-map d s.queue rest s.server s.server (s.clients d)
                (finished_Pending c d s.queue rest s.server m pids h hd other type t)
                (inv.clients_true d hd))
        ];
      }

  step-Invariant : {s t : Net} → Pids pid → Invariant pid s → Step pid s t → Invariant pid t
  step-Invariant {s} pids inv (Step.msgsnd_request c h e) = asked s c inv h
  step-Invariant {s} pids inv (Step.msgrcv_request m rest free found) =
      let (type, t) = msgrcv-Taken 1 s.queue found in taken s m rest pids inv free type t
  step-Invariant {s} pids inv (Step.msgsnd_reply m busy) = sent s m inv busy
  step-Invariant {s} pids inv (Step.msgrcv_reply c m rest h e found) =
      let (type, t) = msgrcv-Taken (pid c) s.queue found in finished s c m rest pids inv h type t

  pub run-Invariant : {n : ℕ} {s : Net} → Pids pid → Run pid n s → Invariant pid s
  run-Invariant pids Run.begin = opened-Invariant
  run-Invariant pids (Run.next r st) = step-Invariant pids (run-Invariant pids r) st

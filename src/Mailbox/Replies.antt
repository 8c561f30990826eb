-- ===== src/Mailbox/Replies.antt =====
-- What the clients print, and how long a run can be.
use cn_lab.Base.{ℕ, ◌≡◌, refl, ap, ◌∙◌, inl, inr, List, ◌++◌, codes}
use cn_lab.Base.Decimal.{decimal}
use cn_lab.Mailbox.{request, Client, Server, Net, IsClient, Step, Run}
use cn_lab.Mailbox.Texts.{reply}
use cn_lab.Mailbox.Queue.{msgrcv-found}
use cn_lab.Mailbox.Steps.{run-Invariant}
use cn_lab.Mailbox.Invariant.{Pids, Pending, ClientTrue}

-- Somebody can move as long as p1.c has a message to send, ...
abbrev CanMove : (ℕ → ℕ) → Net → Type 0
CanMove pid s = (t : Net) × Step pid s t

Pending-CanMove :
    (pid : ℕ → ℕ) (s : Net) (c : ℕ)
    → IsClient c
    → s.clients c ≡ Client.waiting
    → (server : Server) → s.server ≡ server
    → Pending pid c s.queue server
    → CanMove pid s
Pending-CanMove pid s c h e (Server.sending m) at p = (_, Step.msgsnd_reply m at)
Pending-CanMove pid s c h e Server.receiving at (inl asked) =
    let (m, rest, found) =
      msgrcv-found 1 s.queue (request c (pid c)) asked (unfold request in refl) in
    (_, Step.msgrcv_request m rest at found)
Pending-CanMove pid s c h e Server.receiving at (inr (inl held)) = absurd held
Pending-CanMove pid s c h e Server.receiving at (inr (inr answered)) =
    let (m, rest, found) = msgrcv-found (pid c) s.queue (reply c (pid c)) answered refl in
    (_, Step.msgrcv_reply c m rest h e found)

client_ends :
    (pid : ℕ → ℕ) (s : Net) (c : ℕ)
    → IsClient c
    → (place : Client) → s.clients c ≡ place
    → ClientTrue pid c s.queue s.server place
    → ((t : Net) → ¬ Step pid s t)
    → s.clients c ≡ Client.finished (reply c (pid c)).mtext
client_ends pid s c h Client.start e _ stuck = absurd (stuck _ (Step.msgsnd_request c h e))
client_ends pid s c h Client.waiting e p stuck =
    let (t, st) = Pending-CanMove pid s c h e s.server refl p in absurd (stuck t st)
client_ends pid s c h (Client.finished mtext) e text stuck = e ∙ ap Client.finished text

-- In any order of the calls, and for any distinct ids of the clients above 1: a client that has
-- printed a text has printed the reply with its own process number; and when no call can go on, each
-- client has printed it.
pub run_replies :
    (pid : ℕ → ℕ) {n n' : ℕ} {s s' : Net} (c : ℕ) (mtext : List ℕ)
    → Pids pid
    → IsClient c
    → Run pid n s
    → s.clients c ≡ Client.finished mtext
    → Run pid n' s'
    → ((t : Net) → ¬ Step pid s' t)
    → (mtext ≡ codes "message from P1 to P" ++ (decimal c ++ codes " "))
      × (s'.clients c ≡ Client.finished (codes "message from P1 to P" ++ (decimal c ++ codes " ")))
run_replies pid {s} {s'} c mtext pids h r e r' stuck =
    let inv = run-Invariant pid pids r in
    let inv' = run-Invariant pid pids r' in
    (
      rw e at (inv.clients_true c h),
      client_ends pid s' c h (s'.clients c) refl (inv'.clients_true c h) stuck,
    )

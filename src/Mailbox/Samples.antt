-- ===== src/Mailbox/Samples.antt =====
-- The theorems on the message queue at the run in which one client after the other is served.
use cn_lab.Base.{ℕ, suc, ◌+◌, ◌≤◌, ◌≡◌, refl, some, [], ◌∷◌, ◌++◌, codes, arith}
use cn_lab.Base.Decimal.{decimal, atoi, read_digits, write_digits}
use cn_lab.Mailbox.{
  Message, msgrcv, request, answer, Client, Server, Net, IsClient, moved, opened, Step, Run,
}
use cn_lab.Mailbox.Invariant.{Pids}
use cn_lab.Mailbox.Replies.{run_replies}
use cn_lab.Mailbox.Weight.{run_bound}

abbrev pid : ℕ → ℕ
pid c = 4000 + c

pid-Pids : Pids pid
pid-Pids = record { above = λ c h. omega arith; distinct = λ c d h hd e. omega arith }

abbrev idle : (ℕ → Client) → Net
idle clients = record { queue = []; server = Server.receiving; clients = clients }

abbrev made : ℕ → Message
made c = answer (request c (pid c))

abbrev served : ℕ → (ℕ → Client) → ℕ → Client
served c clients = moved c (Client.finished (made c).mtext) (moved c Client.waiting clients)

serve :
    (n c : ℕ) (clients : ℕ → Client)
    → IsClient c
    → clients c ≡ Client.start
    → msgrcv (pid c) (made c ∷ []) ≡ some (made c, [])
    → Run pid n (idle clients)
    → Run pid (suc (suc (suc (suc n)))) (idle (served c clients))
serve n c clients h e found r =
    let waits : moved c Client.waiting clients c ≡ Client.waiting = ground arith in
    Run.next
      (Run.next
        (Run.next (Run.next r (Step.msgsnd_request c h e))
          (Step.msgrcv_request (request c (pid c)) [] refl (unfold msgrcv request in refl)))
        (Step.msgsnd_reply (made c) refl))
      (Step.msgrcv_reply c (made c) [] h waits found)

abbrev nobody : ℕ → Client
nobody c = Client.start

after_one : Run pid 4 (idle (served 2 nobody))
unfolding opened msgrcv answer request decimal atoi read_digits write_digits
after_one = serve 0 2 nobody (omega arith) refl refl Run.begin

after_all : Run pid 12 (idle (served 4 (served 3 (served 2 nobody))))
unfolding msgrcv answer request decimal atoi read_digits write_digits
after_all = serve 8 4 _ (omega arith) refl refl (serve 4 3 _ (omega arith) refl refl after_one)

all_served : (t : Net) → ¬ Step pid (idle (served 4 (served 3 (served 2 nobody)))) t
unfolding msgrcv
all_served t (Step.msgsnd_request c h e) = ground arith
all_served t (Step.msgrcv_request m rest free found) = ground arith
all_served t (Step.msgsnd_reply m busy) = ground arith
all_served t (Step.msgrcv_reply c m rest h e found) = ground arith

run_bound_example : 12 ≤ 12
run_bound_example = run_bound pid pid-Pids after_all

run_replies_example :
    ((made 2).mtext ≡ codes "message from P1 to P" ++ (decimal 2 ++ codes " "))
    × (served 4 (served 3 (served 2 nobody)) 2
        ≡ Client.finished (codes "message from P1 to P" ++ (decimal 2 ++ codes " ")))
run_replies_example =
    run_replies pid 2 (made 2).mtext pid-Pids (omega arith) after_one refl after_all all_served

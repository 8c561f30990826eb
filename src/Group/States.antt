-- ===== src/Group/States.antt =====
-- The states that the processes of the group reach, as search trees.
use cn_lab.Base.{ℕ, ◌≡◌, refl, List, [], ◌∷◌, ◌==◌, Bool, true, false, get_or}
use cn_lab.Base.Packet.{same_text}
use cn_lab.Base.Explore.{Tree, leaf, explore, is_closed, member, same_texts}
use cn_lab.Ring.Signals.{msgrcv}
use cn_lab.Ring.States.{bit, bit-one, queue_key, queue_of, queue_of-key}
use cn_lab.Group.{
  Status, running, asleep, returned, failed, Process, World, fresh, started, main1, main2, main3,
  main4,
}
use cn_lab.Group.Moves.{
  forming, moves, load, store, kill1, kill2, set_pgid, msgsnd, perform, proceed, interrupt,
  is_deliverable, sigusr1_handler, deliver1, deliver2,
}

abbrev status_number : Status → ℕ
status_number running = 0
status_number asleep = 1
status_number returned = 2
status_number failed = 3

abbrev status_of : ℕ → Status
status_of k = get_or (running ∷ asleep ∷ returned ∷ []) k failed

status_of-number : (s : Status) → status_of (status_number s) ≡ s
status_of-number running = refl
status_of-number asleep = refl
status_of-number returned = refl
status_of-number failed = refl

abbrev process_key : Process → List ℕ
process_key p =
    p.place
    ∷ status_number p.status
    ∷ p.next_id
    ∷ p.prev_id
    ∷ p.third_id
    ∷ p.group_id
    ∷ p.pending1
    ∷ p.pending2
    ∷ bit p.in_group
    ∷ []

abbrev process_of : List ℕ → Process
process_of (a ∷ b ∷ c ∷ d ∷ e ∷ f ∷ g ∷ h ∷ i ∷ []) = record {
  place = a;
  status = status_of b;
  next_id = c;
  prev_id = d;
  third_id = e;
  group_id = f;
  pending1 = g;
  pending2 = h;
  in_group = i == 1;
}
process_of others = fresh

process_of-key : (p : Process) → process_of (process_key p) ≡ p
process_of-key p =
    λ i. record p { status = status_of-number p.status i; in_group = bit-one p.in_group i }

abbrev pub key : World → List (List ℕ)
key w =
    process_key w.p1
    ∷ process_key w.p2
    ∷ process_key w.p3
    ∷ process_key w.p4
    ∷ queue_key w.queue
    ∷ (bit w.is_removed ∷ [])
    ∷ []

abbrev pub decode : List (List ℕ) → World
decode (a ∷ b ∷ c ∷ d ∷ q ∷ (r ∷ []) ∷ []) = record {
  p1 = process_of a;
  p2 = process_of b;
  p3 = process_of c;
  p4 = process_of d;
  queue = queue_of q;
  is_removed = r == 1;
}
decode others = started

pub decode-key : (w : World) → decode (key w) ≡ w
decode-key w = λ i. record w {
  p1 = process_of-key w.p1 i;
  p2 = process_of-key w.p2 i;
  p3 = process_of-key w.p3 i;
  p4 = process_of-key w.p4 i;
  queue = queue_of-key w.queue i;
  is_removed = bit-one w.is_removed i;
}

abbrev pub states : Bool → Tree World
states is_patient = explore (forming is_patient) key 8000 (started ∷ []) leaf

-- Both sets of states are closed under the moves.
pub start-states :
    (is_patient : Bool) → member (forming is_patient) key started (states is_patient) ≡ true
unfolding forming moves load store kill1 kill2 set_pgid msgsnd perform proceed interrupt
    is_deliverable sigusr1_handler deliver1 deliver2 msgrcv main1 main2 main3 main4 same_text
    same_texts
start-states true = refl
start-states false = refl

pub states-closed :
    (is_patient : Bool) → is_closed (forming is_patient) key (states is_patient) ≡ true
unfolding forming moves load store kill1 kill2 set_pgid msgsnd perform proceed interrupt
    is_deliverable sigusr1_handler deliver1 deliver2 msgrcv main1 main2 main3 main4 same_text
    same_texts
states-closed true = refl
states-closed false = refl

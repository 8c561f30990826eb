-- ===== src/Ring/States.antt =====
-- The states that the ring reaches, as search trees: with signals at any time, and patient.
use cn_lab.Base.{ℕ, ◌≡◌, refl, ap, List, [], ◌∷◌, ◌==◌, Bool, true, false}
use cn_lab.Base.Packet.{same_text}
use cn_lab.Base.Explore.{Tree, leaf, explore, is_closed, member, same_texts}
use cn_lab.Ring.{Process, Ring, fresh, started, times, main1, main2, main3, main4}
use cn_lab.Ring.Signals.{
  moves, set_pending, is_pending, kill, sigusr1_handler, sigusr2_handler, wake, is_about_to_pause,
  deliver, msgrcv, perform, proceed,
}

abbrev pub bit : Bool → ℕ
bit true = 1
bit false = 0

pub bit-one : (b : Bool) → (bit b == 1) ≡ b
bit-one true = refl
bit-one false = refl

abbrev process_key : Process → List ℕ
process_key p =
    p.place
    ∷ p.usr1_count
    ∷ p.usr2_count
    ∷ p.pending1
    ∷ p.pending2
    ∷ p.prev
    ∷ p.next
    ∷ bit p.is_asleep
    ∷ bit p.is_alive
    ∷ []

abbrev process_of : List ℕ → Process
process_of (a ∷ b ∷ c ∷ d ∷ e ∷ f ∷ g ∷ h ∷ i ∷ []) = record {
  place = a;
  usr1_count = b;
  usr2_count = c;
  pending1 = d;
  pending2 = e;
  prev = f;
  next = g;
  is_asleep = h == 1;
  is_alive = i == 1;
}
process_of others = fresh

process_of-key : (p : Process) → process_of (process_key p) ≡ p
process_of-key p =
    λ i. record p { is_asleep = bit-one p.is_asleep i; is_alive = bit-one p.is_alive i }

abbrev pub queue_key : List (ℕ × ℕ) → List ℕ
queue_key [] = []
queue_key ((t, id) ∷ q) = t ∷ id ∷ queue_key q

abbrev pub queue_of : List ℕ → List (ℕ × ℕ)
queue_of (t ∷ id ∷ q) = (t, id) ∷ queue_of q
queue_of others = []

pub queue_of-key : (q : List (ℕ × ℕ)) → queue_of (queue_key q) ≡ q
queue_of-key [] = refl
queue_of-key ((t, id) ∷ q) = ap (λ r. (t, id) ∷ r) (queue_of-key q)

abbrev pub key : Ring → List (List ℕ)
key s =
    process_key s.p1
    ∷ process_key s.p2
    ∷ process_key s.p3
    ∷ process_key s.p4
    ∷ queue_key s.queue
    ∷ (bit s.is_merged ∷ bit s.is_stray ∷ [])
    ∷ []

abbrev pub decode : List (List ℕ) → Ring
decode (a ∷ b ∷ c ∷ d ∷ q ∷ (m ∷ r ∷ []) ∷ []) = record {
  p1 = process_of a;
  p2 = process_of b;
  p3 = process_of c;
  p4 = process_of d;
  queue = queue_of q;
  is_merged = m == 1;
  is_stray = r == 1;
}
decode others = started

pub decode-key : (s : Ring) → decode (key s) ≡ s
decode-key s = λ i. record s {
  p1 = process_of-key s.p1 i;
  p2 = process_of-key s.p2 i;
  p3 = process_of-key s.p3 i;
  p4 = process_of-key s.p4 i;
  queue = queue_of-key s.queue i;
  is_merged = bit-one s.is_merged i;
  is_stray = bit-one s.is_stray i;
}

abbrev pub states : Bool → Tree Ring
states is_patient = explore (moves is_patient) key 5000 (started ∷ []) leaf

-- Both sets of states are closed under the moves.
pub start-states :
    (is_patient : Bool) → member (moves is_patient) key started (states is_patient) ≡ true
unfolding moves set_pending is_pending kill sigusr1_handler sigusr2_handler wake is_about_to_pause
    deliver msgrcv perform proceed times main1 main2 main3 main4 same_text same_texts
start-states true = refl
start-states false = refl

pub states-closed :
    (is_patient : Bool) → is_closed (moves is_patient) key (states is_patient) ≡ true
unfolding moves set_pending is_pending kill sigusr1_handler sigusr2_handler wake is_about_to_pause
    deliver msgrcv perform proceed times main1 main2 main3 main4 same_text same_texts
states-closed true = refl
states-closed false = refl

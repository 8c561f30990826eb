-- ===== src/Exclusive/Turns.antt =====
-- What the clients are to do, as an abstract queue, and that every move is a move of it or none.
use cn_lab.Base.{
  ℕ, ◌≡◌, refl, ap, ◌∙◌, append_assoc, sym, inl, inr, List, [], ◌∷◌, ◌++◌, Bool, true, false, ◌==◌,
  ==_iff, if◌then◌else◌, Bool-cases,
}
use mathlib.Core.Path.{subst}
use cn_lab.Exclusive.{Place, Client, Ess, update, Step, Reach}
use cn_lab.Exclusive.Token.{Stage, alone, about, called, sending, Inv}

-- The abstract service: those that have joined, in order, those that wait, and those that have been
-- served, of whom each was the first that waited.
pub data Service (first : ℕ) : List ℕ → List ℕ → List ℕ → Type 0 where
  opens : Service first (first ∷ []) (first ∷ []) []
  joins :
      {joined waiting served : List ℕ} (p : ℕ)
      → Service first joined waiting served
      → Service first (joined ++ p ∷ []) (waiting ++ p ∷ []) served
  next :
      {joined waiting served : List ℕ} (p : ℕ)
      → Service first joined (p ∷ waiting) served
      → Service first joined waiting (served ++ p ∷ [])

-- First in, first out: those served and then those that wait are those that have joined.
pub in_order :
    {first : ℕ} {joined waiting served : List ℕ}
    → Service first joined waiting served
    → joined ≡ served ++ waiting
in_order opens = refl
in_order (joins {waiting} {served} p r) =
    ap (λ l. l ++ p ∷ []) (in_order r) ∙ append_assoc served waiting (p ∷ [])
in_order (next {waiting} {served} p r) = in_order r ∙ sym (append_assoc served (p ∷ []) waiting)

-- The clients that have entered the message queue in a run, in order, behind the first client.
unfoldable pub entered_by : {s t : Ess} → List ℕ → Step s t → List ℕ
entered_by joined (Step.enters p e) = joined ++ p ∷ []
entered_by joined other = joined

unfoldable pub entered : {first : ℕ} {s : Ess} → Reach first s → List ℕ
entered {first} Reach.start = first ∷ []
entered (Reach.later r step) = entered_by (entered r) step

abbrev pub is_unserved : Place → Bool
is_unserved p = elim p [ Place.recv_fd ↦ true | Place.serve ↦ true | _ ↦ false ]

-- The client that comes before those in the message queue.
abbrev pub front : ℕ → Stage → (ℕ → Client) → List ℕ
front h alone clients = if is_unserved (clients h).place then h ∷ [] else []
front h (about n) clients = n ∷ []
front h (called n) clients = n ∷ []
front h (sending n) clients = n ∷ []

abbrev pub waiting : ℕ → Stage → Ess → List ℕ
waiting h st s = front h st s.clients ++ s.queue

pub front_move :
    (h : ℕ) (st : Stage) (p : ℕ) (c : Client) (clients : ℕ → Client)
    → is_unserved c.place ≡ is_unserved (clients p).place
    → front h st (update p c clients) ≡ front h st clients
front_move h alone p c clients e = elim (Bool-cases (h == p)) [
  | inl f ↦ let g = (==_iff h p).0 f in rw (f, e, g)
  | inr f ↦ rw f
]
front_move h (about n) p c clients e = refl
front_move h (called n) p c clients e = refl
front_move h (sending n) p c clients e = refl

-- The invariant, and the abstract service in the state that stands for s.
pub record Simulates (first : ℕ) (joined : List ℕ) (s : Ess) : Type 0 where
  pub h : ℕ
  pub st : Stage
  pub inv : Inv s h st
  pub service : Service first joined (waiting h st s) s.served

-- A move in which the abstract service rests.
pub rests :
    {first : ℕ} {joined : List ℕ} (s t : Ess) (h h' : ℕ) (st st' : Stage)
    → Service first joined (waiting h st s) s.served
    → Inv t h' st'
    → waiting h' st' t ≡ waiting h st s
    → t.served ≡ s.served
    → Simulates first joined t
rests {first} {joined} s t h h' st st' service inv e f = record {
  h = h';
  st = st';
  inv = inv;
  service =
      subst (λ w. Service first joined w t.served) (sym e)
        (subst (λ r. Service first joined (waiting h st s) r) (sym f) service);
}

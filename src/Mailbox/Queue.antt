-- ===== src/Mailbox/Queue.antt =====
-- What msgrcv takes out of a queue.
use cn_lab.Base.{
  ℕ, ◌≡◌, refl, sym, ap, ◌∙◌, ◌⊎◌, inl, inr, Option, none, some, List, [], ◌∷◌, All, ◌==◌, ==_iff,
  Bool-cases, arith,
}
use cn_lab.Mailbox.{Message, kept, msgrcv}
use mathlib.Core.List.{Memᴰ}
use mathlib.Core.List.Memᴰ

-- A message taken out of a queue, and what is left of it.
pub data Taken (m : Message) : List Message → List Message → Type 0 where
  here : {queue : List Message} → Taken m (m ∷ queue) queue
  there :
      {x : Message} {queue rest : List Message}
      → Taken m queue rest
      → Taken m (x ∷ queue) (x ∷ rest)

abbrev IsTaken : ℕ → List Message → Option (Message × List Message) → Type 0
IsTaken type queue none = Unit
IsTaken type queue (some (m, rest)) = (m.mtype ≡ type) × Taken m queue rest

kept-IsTaken :
    (type : ℕ) (x : Message) (queue : List Message) (o : Option (Message × List Message))
    → IsTaken type queue o
    → IsTaken type (x ∷ queue) (kept x o)
kept-IsTaken type x queue none h = tt
kept-IsTaken type x queue (some (m, rest)) (e, t) = (e, Taken.there t)

msgrcv-IsTaken : (type : ℕ) (queue : List Message) → IsTaken type queue (msgrcv type queue)
unfolding msgrcv
msgrcv-IsTaken type [] = tt
msgrcv-IsTaken type (x ∷ queue) = elim (Bool-cases (x.mtype == type)) [
  | inl same ↦ rw same ((==_iff x.mtype type).0 same, Taken.here)
  | inr other ↦ rw other (kept-IsTaken type x queue (msgrcv type queue) (msgrcv-IsTaken type queue))
]

pub msgrcv-Taken :
    (type : ℕ) (queue : List Message) {m : Message} {rest : List Message}
    → msgrcv type queue ≡ some (m, rest)
    → (m.mtype ≡ type) × Taken m queue rest
msgrcv-Taken type queue e = rw e at (msgrcv-IsTaken type queue)

pub Taken-All :
    (P : Message → Type 0) {m : Message} {queue rest : List Message}
    → Taken m queue rest
    → All P queue
    → P m × All P rest
Taken-All P here (h, hs) = (h, hs)
Taken-All P (there t) (h, hs) = let (hm, hr) = Taken-All P t hs in (hm, (h, hr))

pub Taken-Memᴰ :
    {m x : Message} {queue rest : List Message}
    → Taken m queue rest
    → Memᴰ x queue
    → (x ≡ m) ⊎ Memᴰ x rest
Taken-Memᴰ here h = Memᴰ.cases_cons h
Taken-Memᴰ (there t) h = elim (Memᴰ.cases_cons h) [
  | inl e ↦ inr (Memᴰ.head e)
  | inr later ↦ elim (Taken-Memᴰ t later) [ inl e ↦ inl e | inr r ↦ inr (Memᴰ.tail r) ]
]

-- A message of the type is found.
pub msgrcv-found :
    (type : ℕ) (queue : List Message) (x : Message)
    → Memᴰ x queue
    → x.mtype ≡ type
    → (m : Message) × (rest : List Message) × (msgrcv type queue ≡ some (m, rest))
unfolding msgrcv
msgrcv-found type [] x h e = absurd (Memᴰ.not-nil h)
msgrcv-found type (y ∷ queue) x h e = elim (Bool-cases (y.mtype == type)) [
  | inl same ↦ (y, queue, rw same refl)
  | inr other ↦ elim (Memᴰ.cases_cons h) [
    | inl first ↦
        let t : y.mtype ≡ type = ap (λ m. m.mtype) (sym first) ∙ e in absurd (ground arith)
    | inr later ↦
        let (m, rest, found) = msgrcv-found type queue x later e in
        (m, y ∷ rest, rw (other, found) refl)
  ]
]

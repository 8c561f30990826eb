-- ===== src/Exclusive/Keep.antt =====
-- Every move keeps the roles of the clients, or passes them on.
use cn_lab.Base.{
  ℕ, ◌≡◌, ◌≢◌, refl, sym, ap, ◌∙◌, inl, inr, List, [], ◌∷◌, ◌++◌, true, ◌==◌, ==_iff, if◌then◌else◌,
  Bool-cases, arith,
}
use mathlib.Core.Path.{subst}
use cn_lab.Exclusive.{Place, Client, Ess, update, woken, at}
use cn_lab.Exclusive.Token.{
  count, Stage, alone, about, called, sending, role_of, ok, Link, Inv, is_received, is_bound,
  each_one, count-append, ok-enters,
}

Link-move :
    (s : Ess) (h : ℕ) (st : Stage) (p : ℕ) (c : Client) (queue served : List ℕ)
    → Link s h st
    → is_received c.place ≡ is_received (s.clients p).place
    → is_bound c.place ≡ is_bound (s.clients p).place
    → Link (record s { queue = queue; clients = update p c s.clients; served = served }) h st
Link-move s h alone p c queue served l e b = l
Link-move s h (about n) p c queue served (ne, bound, conns) e b = elim (Bool-cases (h == p)) [
  | inl f ↦
      let g = (==_iff h p).0 f in
      let same : is_bound c.place ≡ is_bound (s.clients h).place =
        b ∙ ap (λ x. is_bound (s.clients x).place) (sym g) in
      (ne, rw (f, same) bound, rw (f, same) conns)
  | inr f ↦ (ne, rw f bound, rw f conns)
]
Link-move s h (called n) p c queue served (ne, bound, conns) e b = (
  ne,
  bound,
  elim (Bool-cases (n == p)) [
    | inl f ↦
        let g = (==_iff n p).0 f in
        rw (f, e) (conns ∙ ap (λ x. if is_received (s.clients x).place then n ∷ [] else []) g)
    | inr f ↦ rw f conns
  ],
)
Link-move s h (sending n) p c queue served l e b = l

-- A client moves within its role.
Inv-move :
    (s : Ess) (h : ℕ) (st : Stage) (p : ℕ) (c : Client) (queue served : List ℕ)
    → Inv s h st
    → ((q : ℕ) → q ≢ p → count q queue ≡ count q s.queue)
    → ok (role_of h st p) c (count p queue) ≡ true
    → is_received c.place ≡ is_received (s.clients p).place
    → is_bound c.place ≡ is_bound (s.clients p).place
    → Inv (record s { queue = queue; clients = update p c s.clients; served = served }) h st
Inv-move s h st p c queue served i same okp e b = record {
  each = each_one h st p c s.clients s.queue queue i.each same okp;
  linked = Link-move s h st p c queue served i.linked e b;
}

pub Inv-holder :
    (s : Ess) (h p : ℕ) (st st' : Stage) → Inv s h st → (p ≡ h) × (st ≡ st') → Inv s p st'
Inv-holder s h p st st' i (e, f) = subst (λ x. Inv s x st') (sym e) (subst (λ x. Inv s h x) f i)

enters_count : (q p : ℕ) (queue : List ℕ) → q ≢ p → count q (queue ++ p ∷ []) ≡ count q queue
enters_count q p queue ne = ground (arith, count-append q queue p)

pub step-enters :
    (s : Ess) (h : ℕ) (st : Stage) (p : ℕ)
    → Inv s h st
    → (s.clients p).place ≡ Place.msgsnd
    → Inv (at (record s { queue = s.queue ++ p ∷ [] }) p Place.test_ready) h st
step-enters s h st p i e =
    let c = record (s.clients p) { place = Place.test_ready } in
    Inv-move s h st p c (s.queue ++ p ∷ []) s.served i (λ q ne. enters_count q p s.queue ne)
      (rw (count-append p s.queue p, (==_iff p p).1 refl)
        (ok-enters (role_of h st p) (s.clients p) (count p s.queue) (i.each p) e))
      (rw e) (rw e)

-- A client moves, and the queue stays.
pub step-stays :
    (s : Ess) (h : ℕ) (st : Stage) (p : ℕ) (c : Client)
    → Inv s h st
    → ok (role_of h st p) c (count p s.queue) ≡ true
    → is_received c.place ≡ is_received (s.clients p).place
    → is_bound c.place ≡ is_bound (s.clients p).place
    → Inv (record s { clients = update p c s.clients }) h st
step-stays s h st p c i okp e b = Inv-move s h st p c s.queue s.served i (λ q ne. refl) okp e b

pub woken-received : (p : Place) → is_received (woken p) ≡ is_received p
unfolding woken
woken-received p = ground arith

pub woken-bound : (p : Place) → is_bound (woken p) ≡ is_bound p
unfolding woken
woken-bound p = ground arith

ok-holder :
    (p : ℕ) (c : Client) (k : ℕ)
    → ok (role_of p alone p) c k ≡ true
    → (ok (role_of p alone p) (record c { place = Place.serve }) k ≡ true)
      × (ok (role_of p alone p) (record c { place = Place.msgrcv }) k ≡ true)
unfolding ok
ok-holder p c k h = ground arith

pub step-receives : (s : Ess) (p : ℕ) → Inv s p alone → Inv (at s p Place.serve) p alone
step-receives s p i = record {
  each =
      each_one p alone p (record (s.clients p) { place = Place.serve }) s.clients s.queue s.queue
        i.each (λ q ne. refl) (ok-holder p (s.clients p) (count p s.queue) (i.each p)).0;
  linked = tt;
}

pub step-serves :
    (s : Ess) (p : ℕ)
    → Inv s p alone
    → Inv (at (record s { served = s.served ++ p ∷ [] }) p Place.msgrcv) p alone
step-serves s p i = record {
  each =
      each_one p alone p (record (s.clients p) { place = Place.msgrcv }) s.clients s.queue s.queue
        i.each (λ q ne. refl) (ok-holder p (s.clients p) (count p s.queue) (i.each p)).1;
  linked = tt;
}

pub not_queued : (h : ℕ) (st : Stage) (c : Client) (k : ℕ) → ok (role_of h st h) c k ≡ true → k ≡ 0
unfolding ok
not_queued h st c k okh = ground arith

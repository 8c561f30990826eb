-- ===== src/Exclusive/Pass.antt =====
-- The moves that pass the connection on: each keeps the roles or hands the holder's role over.
use cn_lab.Base.{
  ℕ, ◌≡◌, ◌≢◌, refl, sym, ◌∙◌, none, List, [], ◌∷◌, ◌++◌, Bool, true, false, ◌==◌, if◌then◌else◌,
  arith,
}
use mathlib.Core.Path.{subst}
use cn_lab.Exclusive.{Place, Client, Ess, update, at}
use cn_lab.Exclusive.Token.{
  count, alone, called, sending, other, holder, partner, role_of, ok, Inv, is_received, each_one,
  each_two,
}
use cn_lab.Exclusive.Call.{as_holder, as_partner}

ok-accepts :
    (n : ℕ) (c : Client) (k : ℕ)
    → ok (holder (called n)) c k ≡ true
    → ok (holder (sending n)) (record c { place = Place.send_fd n }) k ≡ true
unfolding ok
ok-accepts n c k h = ground arith

ok-accepted :
    (n : ℕ) (c : Client) (k : ℕ)
    → ok (partner (called n)) c k ≡ true
    → is_received c.place ≡ true
    → ok (partner (sending n)) c k ≡ true
unfolding ok
ok-accepted n c k h e = ground arith

-- The connection that is accepted is the one of the client that was signalled.
accepted_lem :
    (received : Bool) (n c : ℕ) (rest : List ℕ)
    → c ∷ rest ≡ (if received then n ∷ [] else [])
    → (received ≡ true) × (c ≡ n)
accepted_lem true n c rest h = (refl, ground arith)
accepted_lem false n c rest h = absurd (cc)

step-accepts_n :
    (s : Ess) (p n : ℕ) (rest : List ℕ)
    → Inv s p (called n)
    → is_received (s.clients n).place ≡ true
    → Inv (at (record s { backlog = rest }) p (Place.send_fd n)) p (sending n)
step-accepts_n s p n rest i received =
    let ne = i.linked.0 in
    let same : (p == p) ≡ true = ground arith in
    let itself : (n == n) ≡ true = ground arith in
    let different : (n == p) ≡ false = ground arith in
    let okn = (as_partner p n (s.clients n) (count n s.queue) ne).1 (i.each n) in
    record {
      each =
          each_two p (called n) p (sending n) p n s.clients
            (update p (record (s.clients p) { place = Place.send_fd n }) s.clients) s.queue s.queue
            i.each
            (λ q np nn.
              let q_p : (q == p) ≡ false = ground arith in
              let q_n : (q == n) ≡ false = ground arith in rw (q_p, q_n))
            (rw same (
              ok-accepts n (s.clients p) (count p s.queue)
                (as_holder p (called n) (s.clients p) (count p s.queue) (i.each p))))
            (rw (different, itself) (ok-accepted n (s.clients n) (count n s.queue) okn received));
      linked = ne;
    }

pub step-accepts :
    (s : Ess) (p n c : ℕ) (rest : List ℕ)
    → Inv s p (called n)
    → s.backlog ≡ c ∷ rest
    → (c ≡ n) × Inv (at (record s { backlog = rest }) p (Place.send_fd c)) p (sending c)
step-accepts s p n c rest i e =
    let (received, f) =
      accepted_lem (is_received (s.clients n).place) n c rest (sym e ∙ i.linked.2) in
    (
      f,
      subst (λ x. Inv (at (record s { backlog = rest }) p (Place.send_fd x)) p (sending x)) (sym f)
          (step-accepts_n s p n rest i received),
    )

ok-sends :
    (n : ℕ) (c : Client) (k : ℕ)
    → ok (holder (sending n)) c k ≡ true
    → ok other (record c { place = Place.exited }) k ≡ true
unfolding ok
ok-sends n c k h = ground arith

ok-sent :
    (n : ℕ) (c : Client) (k : ℕ)
    → ok (partner (sending n)) c k ≡ true
    → ok (holder alone) (record c { granted = true }) k ≡ true
unfolding ok
ok-sent n c k h = ground arith

pub place_of_partner :
    (h n : ℕ) (c : Client) (k : ℕ)
    → n ≢ h
    → ok (role_of h (sending n) n) c k ≡ true
    → c.place ≡ Place.recv_fd
unfolding ok
place_of_partner h n c k ne okn = ground arith

pub step-sends :
    (s : Ess) (p n : ℕ)
    → Inv s p (sending n)
    → Inv
        (record s {
          listener = none;
          clients =
              update n
                (record (s.clients n) { granted = true })
                (update p (record (s.clients p) { place = Place.exited }) s.clients);
        })
        n
        alone
step-sends s p n i =
    let ne = i.linked in
    let same : (p == p) ≡ true = ground arith in
    let itself : (n == n) ≡ true = ground arith in
    let different : (n == p) ≡ false = ground arith in
    let different' : (p == n) ≡ false = ground arith in
    record {
      each =
          each_two p (sending n) n alone p n s.clients
            (update n (record (s.clients n) { granted = true })
              (update p (record (s.clients p) { place = Place.exited }) s.clients))
            s.queue s.queue i.each
            (λ q np nn.
              let q_p : (q == p) ≡ false = ground arith in
              let q_n : (q == n) ≡ false = ground arith in rw (q_p, q_n))
            (rw (same, different')
              (ok-sends n (s.clients p) (count p s.queue)
                (as_holder p (sending n) (s.clients p) (count p s.queue) (i.each p))))
            (rw itself (
              ok-sent n (s.clients n) (count n s.queue)
                ((as_partner p n (s.clients n) (count n s.queue) ne).2 (i.each n))));
      linked = tt;
    }

ok-connects :
    (p : ℕ) (c : Client) (k : ℕ)
    → ok (partner (called p)) c k ≡ true
    → c.place ≡ Place.connect
    → ok (partner (called p)) (record c { place = Place.recv_fd }) k ≡ true
unfolding ok
ok-connects p c k h e = ground arith

pub step-connects :
    (s : Ess) (h p : ℕ)
    → Inv s h (called p)
    → (s.clients p).place ≡ Place.connect
    → Inv (at (record s { backlog = s.backlog ++ p ∷ [] }) p Place.recv_fd) h (called p)
step-connects s h p i e =
    let ne = i.linked.0 in
    let itself : (p == p) ≡ true = ground arith in
    let different : (p == h) ≡ false = ground arith in
    let empty : s.backlog ≡ [] = rw e at i.linked.2 in
    record {
      each =
          each_one h (called p) p (record (s.clients p) { place = Place.recv_fd }) s.clients s.queue
            s.queue i.each (λ q nq. refl)
            (rw (different, itself)
              (ok-connects p (s.clients p) (count p s.queue)
                ((as_partner h p (s.clients p) (count p s.queue) ne).1 (i.each p)) e));
      linked = (ne, i.linked.1, rw (itself, empty) refl);
    }
